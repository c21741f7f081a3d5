-- ===== src/Environ/Modify/Greeting.antt =====
-- What proc_demos/modify_env.c leaves in the environment.
use unix_demos.Base.{
  ◌≡◌, refl, sym, ap, ◌∙◌, true, Option, none, some, List, [], ◌∷◌, ◌++◌, map, if◌then◌else◌,
  same_text, arith, inl, inr, Bool-cases,
}
use unix_demos.Os.{Bytes}
use unix_demos.Environ.{find_value}
use unix_demos.Environ.Lookup.{no_equals, lookup, AllNames, entry, find_value-lookup}
use unix_demos.Environ.Modify.{is_some, unsetenv, setenv, greet, bye, hello_world, modify_env}
use unix_demos.Environ.Modify.Pairs.{
  take_away, put_pairs, last_of, unsetenv-take_away, lookup-cong, lookup-take_away, AllNames-if,
  take_away-AllNames, put_all-pairs, lookup-put_pairs,
}

-- The default is added where the variable is not there.
abbrev with_greet : List (Bytes × Bytes) → List (Bytes × Bytes)
with_greet env = if is_some (lookup greet env) then env else env ++ (greet, hello_world) ∷ []

map_append : (xs ys : List (Bytes × Bytes)) → map entry (xs ++ ys) ≡ map entry xs ++ map entry ys
map_append [] ys = refl
map_append (x ∷ xs) ys = ap (λ zs. entry x ∷ zs) (map_append xs ys)

setenv-with_greet :
    (env : List (Bytes × Bytes))
    → AllNames env
    → setenv greet hello_world (map entry env) ≡ map entry (with_greet env)
unfolding setenv
setenv-with_greet env all =
    let found = find_value-lookup greet env refl all in
    elim (Bool-cases (is_some (lookup greet env))) [
      | inl e ↦ ground (arith, e, found)
      | inr e ↦ ground (arith, e, found, map_append env ((greet, hello_world) ∷ []))
    ]

append-AllNames :
    (env : List (Bytes × Bytes)) → AllNames env → AllNames (env ++ (greet, hello_world) ∷ [])
append-AllNames [] all = (refl, tt)
append-AllNames (v ∷ env) (all1, all) = (all1, append-AllNames env all)

with_greet-AllNames : (env : List (Bytes × Bytes)) → AllNames env → AllNames (with_greet env)
with_greet-AllNames env all =
    AllNames-if (is_some (lookup greet env)) _ _ all (append-AllNames env all)

-- One value, or else the other.
abbrev pub or_else : Option Bytes → Option Bytes → Option Bytes
or_else none other = other
or_else (some v) other = some v

lookup-append :
    (name : Bytes) (env : List (Bytes × Bytes))
    → lookup name (env ++ (greet, hello_world) ∷ [])
      ≡ or_else (lookup name env) (if same_text name greet then some hello_world else none)
lookup-append name [] = refl
lookup-append name ((key, value) ∷ env) = ground (arith, lookup-append name env)

or_else-none : (o : Option Bytes) → or_else o none ≡ o
or_else-none none = refl
or_else-none (some v) = refl

or_else-some : (o : Option Bytes) (p : Option Bytes) → is_some o ≡ true → or_else o p ≡ o
or_else-some none p e = absurd (ground (arith, e))
or_else-some (some v) p e = refl

lookup-with_greet :
    (name : Bytes) (env : List (Bytes × Bytes))
    → lookup name (with_greet env)
      ≡ or_else (lookup name env) (if same_text name greet then some hello_world else none)
lookup-with_greet name env = elim (Bool-cases (is_some (lookup greet env))) [
  | inr e ↦
      ap (λ b. lookup name (if b then env else env ++ (greet, hello_world) ∷ [])) e
      ∙ lookup-append name env
  | inl e ↦
      ap (λ b. lookup name (if b then env else env ++ (greet, hello_world) ∷ [])) e
      ∙ (elim (Bool-cases (same_text name greet)) [
        | inl e' ↦
            sym (or_else-some (lookup name env) _ (ap is_some (lookup-cong name greet env e') ∙ e))
        | inr e' ↦ sym (
            ap (λ b. or_else (lookup name env) (if b then some hello_world else none)) e'
            ∙ or_else-none (lookup name env))
      ])
]

-- With arguments of the form KEY=value, with no = in a key or in the name, the loop of getenv_
-- finds in the environment that modify_env.c makes the last value that a variable was given,
-- "Hello world" for a GREET that was given none, and nothing for BYE.
pub modify_env-lookup :
    (name : Bytes) (vars : List (Bytes × Bytes))
    → no_equals name ≡ true
    → AllNames vars
    → find_value name (modify_env (map entry vars)) ≡ (
        if same_text name bye
        then none
        else or_else
            (last_of name vars none)
            (if same_text name greet then some hello_world else none))
unfolding modify_env
modify_env-lookup name vars clean all =
    let (a, b) = put_all-pairs vars [] all tt in
    let env = put_pairs vars [] in
    ap (λ e. find_value name (unsetenv bye (setenv greet hello_world e))) a
    ∙ (ap (λ e. find_value name (unsetenv bye e)) (setenv-with_greet env b)
        ∙ (ap (find_value name)
              (unsetenv-take_away bye (with_greet env) refl (with_greet-AllNames env b))
            ∙ (find_value-lookup name (take_away bye (with_greet env)) clean
                  (take_away-AllNames bye (with_greet env) (with_greet-AllNames env b))
                ∙ (lookup-take_away name bye (with_greet env)
                    ∙ ap (λ o. if same_text name bye then none else o)
                        (lookup-with_greet name env
                          ∙ ap
                              (λ o.
                                or_else o (if same_text name greet then some hello_world else none))
                              (lookup-put_pairs name vars []))))))
