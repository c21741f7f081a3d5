-- ===== src/Environ/Lookup.antt =====
-- What `getenv_` of pthread/getenv_thr.c finds, and what it does with the mutex.
use unix_demos.Base.{
  ℕ, ◌≡◌, refl, ap, Bool, true, false, not, ◌&&◌, Option, none, some, List, [], ◌∷◌, ◌++◌, map,
  ◌==◌, if◌then◌else◌, arith, inl, inr, Option-cases, same_text,
}
use unix_demos.Os.{
  Bytes, Call, pthread_once, mutex_lock, mutex_unlock, getspecific, setspecific, malloc,
}
use unix_demos.Os.Run.{Kernel, returned, run}
use unix_demos.Environ.{maxstringsz, behind, value_of, find_value, copy_value, getenv}

abbrev pub no_equals : Bytes → Bool
no_equals [] = true
no_equals (c ∷ cs) = not (c == b'=') && no_equals cs

-- The value that the first variable with the name has.
abbrev pub lookup : Bytes → List (Bytes × Bytes) → Option Bytes
lookup name [] = none
lookup name ((key, value) ∷ vars) = if same_text name key then some value else lookup name vars

abbrev pub AllNames : List (Bytes × Bytes) → Type 0
AllNames [] = Unit {0}
AllNames ((key, value) ∷ vars) = (no_equals key ≡ true) × AllNames vars

-- `KEY=value`
abbrev pub entry : Bytes × Bytes → Bytes
entry (key, value) = key ++ b'=' ∷ value

pub value_of-entry :
    (name key value : Bytes)
    → no_equals name ≡ true
    → no_equals key ≡ true
    → value_of name (entry (key, value)) ≡ (if same_text name key then some value else none)
unfolding value_of behind
value_of-entry [] [] value clean clean' = refl
value_of-entry [] (d ∷ ds) value clean clean' = ground arith
value_of-entry (c ∷ cs) [] value clean clean' = ground arith
value_of-entry (c ∷ cs) (d ∷ ds) value clean clean' = ground (arith, value_of-entry cs ds value)

-- Over an environment of KEY=value texts, with no = in a key or in the name, the loop of
-- getenv_ finds the value of the first variable with exactly that name, and nothing where there
-- is none.
pub find_value-lookup :
    (name : Bytes) (vars : List (Bytes × Bytes))
    → no_equals name ≡ true
    → AllNames vars
    → find_value name (map entry vars) ≡ lookup name vars
unfolding find_value
find_value-lookup name [] clean all = refl
find_value-lookup name ((key, value) ∷ vars) clean (all1, all) =
    ground (arith, value_of-entry name key value clean all1, find_value-lookup name vars clean all)

abbrev pub is_mutex : Call → Bool
is_mutex mutex_lock = true
is_mutex mutex_unlock = true
is_mutex _ = false

abbrev pub mutex_calls : List Call → List Call
mutex_calls [] = []
mutex_calls (c ∷ cs) = if is_mutex c then c ∷ mutex_calls cs else mutex_calls cs

module _ {K : Type 0} (kernel : Kernel K) (environ : List Bytes) where
  copy_value-mutex_calls :
      (name : Bytes) (envbuf : ℕ) (s : K)
      → let d = run kernel (copy_value environ name envbuf) s in
        (d.ended
          ≡ returned (elim (find_value name environ) [ none ↦ none | some value ↦ some envbuf ]))
        × (mutex_calls d.calls ≡ mutex_unlock ∷ [])
  unfolding run copy_value
  copy_value-mutex_calls name envbuf s = ground arith

  -- Whatever the calls answer, getenv_ returns, and has taken the mutex once and then given it
  -- back once.
  pub getenv-mutex_calls :
      (name : Bytes) (s : K)
      → let d = run kernel (getenv environ name) s in
        ((r : Option ℕ) × (d.ended ≡ returned r))
        × (mutex_calls d.calls ≡ mutex_lock ∷ mutex_unlock ∷ [])
  unfolding run getenv
  getenv-mutex_calls name s =
      let s1 = (kernel mutex_lock (kernel pthread_once s).1).1 in
      let s2 = (kernel getspecific s1).1 in
      let s3 = (kernel (malloc maxstringsz) s2).1 in
      elim (Option-cases (kernel getspecific s1).0) [
        | inr (own, e) ↦
            let (ended, calls) = copy_value-mutex_calls name own s2 in
            rw e ((_, ended), ap (λ cs. mutex_lock ∷ cs) calls)
        | inl e ↦ elim (Option-cases (kernel (malloc maxstringsz) s2).0) [
          | inl e' ↦ rw (e, e') ((none, refl), refl)
          | inr (new, e') ↦
              let (ended, calls) =
                copy_value-mutex_calls name new (kernel (setspecific new) s3).1 in
              rw (e, e') ((_, ended), ap (λ cs. mutex_lock ∷ cs) calls)
        ]
      ]
