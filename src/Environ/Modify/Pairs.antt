-- ===== src/Environ/Modify/Pairs.antt =====
-- The environment of proc_demos/modify_env.c as pairs of a name and a value.
use unix_demos.Base.{
  ◌≡◌, refl, ap, ◌∙◌, Bool, true, false, Option, none, some, List, [], ◌∷◌, map, if◌then◌else◌,
  same_text, arith, inl, inr, Bool-cases,
}
use unix_demos.Os.{Bytes}
use unix_demos.Environ.Lookup.{no_equals, lookup, AllNames, entry, value_of-entry}
use unix_demos.Environ.Modify.{name_of, is_named, unsetenv, replace, putenv, put_all}

-- The variables as pairs.
abbrev pub put : (key value : Bytes) → List (Bytes × Bytes) → List (Bytes × Bytes)
put key value [] = (key, value) ∷ []
put key value ((key', value') ∷ vars) =
    if same_text key key' then (key, value) ∷ vars else (key', value') ∷ put key value vars

abbrev pub take_away : (key : Bytes) → List (Bytes × Bytes) → List (Bytes × Bytes)
take_away key [] = []
take_away key ((key', value') ∷ vars) =
    let rest = take_away key vars in if same_text key key' then rest else (key', value') ∷ rest

name_of-entry :
    (key value : Bytes)
    → no_equals key ≡ true
    → (name_of (entry (key, value)) ≡ key) × (no_equals (entry (key, value)) ≡ false)
name_of-entry [] value clean = (refl, refl)
name_of-entry (c ∷ cs) value clean =
    let (a, b) = name_of-entry cs value (ground (arith, clean)) in
    (ground (arith, clean, a), ground (arith, clean, b))

named-entry :
    (name key value : Bytes)
    → no_equals name ≡ true
    → no_equals key ≡ true
    → is_named name (entry (key, value)) ≡ same_text name key
named-entry name key value clean clean' = ground (arith, value_of-entry name key value clean clean')

replace-put :
    (key value : Bytes) (vars : List (Bytes × Bytes))
    → no_equals key ≡ true
    → AllNames vars
    → replace key (entry (key, value)) (map entry vars) ≡ map entry (put key value vars)
replace-put key value [] clean all = refl
replace-put key value ((key', value') ∷ vars) clean (all1, all) =
    ground (arith, named-entry key key' value' clean all1, replace-put key value vars clean all)

pub unsetenv-take_away :
    (key : Bytes) (vars : List (Bytes × Bytes))
    → no_equals key ≡ true
    → AllNames vars
    → unsetenv key (map entry vars) ≡ map entry (take_away key vars)
unfolding unsetenv
unsetenv-take_away key [] clean all = refl
unsetenv-take_away key ((key', value') ∷ vars) clean (all1, all) =
    ground (arith, named-entry key key' value' clean all1, unsetenv-take_away key vars clean all)

same_text_left : (a b c : Bytes) → same_text a b ≡ true → same_text a c ≡ same_text b c
same_text_left [] [] c e = refl
same_text_left [] (y ∷ b) c e = absurd (ground (arith, e))
same_text_left (x ∷ a) [] c e = absurd (ground (arith, e))
same_text_left (x ∷ a) (y ∷ b) [] e = refl
same_text_left (x ∷ a) (y ∷ b) (z ∷ c) e = ground (arith, e, same_text_left a b c)

same_text_right : (a b c : Bytes) → same_text b c ≡ true → same_text a b ≡ same_text a c
same_text_right a [] [] e = refl
same_text_right a [] (z ∷ c) e = absurd (ground (arith, e))
same_text_right a (y ∷ b) [] e = absurd (ground (arith, e))
same_text_right [] (y ∷ b) (z ∷ c) e = refl
same_text_right (x ∷ a) (y ∷ b) (z ∷ c) e = ground (arith, e, same_text_right a b c)

pub lookup-cong :
    (a b : Bytes) (vars : List (Bytes × Bytes))
    → same_text a b ≡ true
    → lookup a vars ≡ lookup b vars
lookup-cong a b [] e = refl
lookup-cong a b ((key, value) ∷ vars) e =
    ground (arith, same_text_left a b key e, lookup-cong a b vars e)

lookup-put :
    (name key value : Bytes) (vars : List (Bytes × Bytes))
    → lookup name (put key value vars)
      ≡ (if same_text name key then some value else lookup name vars)
lookup-put name key value [] = refl
lookup-put name key value ((key', value') ∷ vars) = elim (Bool-cases (same_text key key')) [
  | inl e ↦ ground (arith, e, same_text_right name key key' e)
  | inr e ↦ ground (arith, e, lookup-put name key value vars, same_text_left name key key')
]

pub lookup-take_away :
    (name key : Bytes) (vars : List (Bytes × Bytes))
    → lookup name (take_away key vars) ≡ (if same_text name key then none else lookup name vars)
lookup-take_away name key [] = ground arith
lookup-take_away name key ((key', value') ∷ vars) = elim (Bool-cases (same_text key key')) [
  | inl e ↦ ground (arith, e, lookup-take_away name key vars, same_text_right name key key' e)
  | inr e ↦ ground (arith, e, lookup-take_away name key vars, same_text_left name key key')
]

pub AllNames-if :
    (b : Bool) (xs ys : List (Bytes × Bytes))
    → AllNames xs
    → AllNames ys
    → AllNames (if b then xs else ys)
AllNames-if true xs ys x y = x
AllNames-if false xs ys x y = y

put-AllNames :
    (key value : Bytes) (vars : List (Bytes × Bytes))
    → no_equals key ≡ true
    → AllNames vars
    → AllNames (put key value vars)
put-AllNames key value [] clean all = (clean, tt)
put-AllNames key value ((key', value') ∷ vars) clean (all1, all) =
    AllNames-if (same_text key key') _ _ (clean, all) (all1, put-AllNames key value vars clean all)

pub take_away-AllNames :
    (key : Bytes) (vars : List (Bytes × Bytes)) → AllNames vars → AllNames (take_away key vars)
take_away-AllNames key [] all = tt
take_away-AllNames key ((key', value') ∷ vars) (all1, all) =
    AllNames-if (same_text key key') _ _ (take_away-AllNames key vars all)
      (all1, take_away-AllNames key vars all)

abbrev pub put_pairs : (vars env : List (Bytes × Bytes)) → List (Bytes × Bytes)
put_pairs [] env = env
put_pairs ((key, value) ∷ vars) env = put_pairs vars (put key value env)

-- The last value that a variable is given, where it had this one before.
abbrev pub last_of : (name : Bytes) → List (Bytes × Bytes) → Option Bytes → Option Bytes
last_of name [] before = before
last_of name ((key, value) ∷ vars) before =
    last_of name vars (if same_text name key then some value else before)

putenv-put :
    (key value : Bytes) (env : List (Bytes × Bytes))
    → no_equals key ≡ true
    → AllNames env
    → putenv (entry (key, value)) (map entry env) ≡ map entry (put key value env)
unfolding putenv
putenv-put key value env clean all =
    let (a, b) = name_of-entry key value clean in
    ground (arith, a, b, replace-put key value env clean all)

pub put_all-pairs :
    (vars env : List (Bytes × Bytes))
    → AllNames vars
    → AllNames env
    → (put_all (map entry vars) (map entry env) ≡ map entry (put_pairs vars env))
      × AllNames (put_pairs vars env)
put_all-pairs [] env all all' = (refl, all')
put_all-pairs ((key, value) ∷ vars) env (all1, all) all' =
    let (a, b) =
      put_all-pairs vars (put key value env) all (put-AllNames key value env all1 all') in
    (ap (put_all (map entry vars)) (putenv-put key value env all1 all') ∙ a, b)

pub lookup-put_pairs :
    (name : Bytes) (vars env : List (Bytes × Bytes))
    → lookup name (put_pairs vars env) ≡ last_of name vars (lookup name env)
lookup-put_pairs name [] env = refl
lookup-put_pairs name ((key, value) ∷ vars) env =
    lookup-put_pairs name vars (put key value env)
    ∙ ap (last_of name vars) (lookup-put name key value env)
