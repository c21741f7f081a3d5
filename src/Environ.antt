-- ===== src/Environ.antt =====
-- pthread/getenv_thr.c: getenv with a buffer for each thread, under a mutex.
pub mod Lookup
pub mod Modify
use unix_demos.Base.{
  ℕ, zero, suc, ◌-◌, Bool, true, false, Option, none, some, List, [], ◌∷◌, ◌++◌, ◌==◌,
  if◌then◌else◌,
}
use unix_demos.Os.{
  Bytes, pthread_once, mutex_lock, mutex_unlock, getspecific, setspecific, malloc, strncpy, Prog,
  ret, ◌>>=◌, ◌>>◌, sys,
}

abbrev pub maxstringsz : ℕ
maxstringsz = 4096

-- What follows in a text behind another one.
unfoldable pub behind : Bytes → Bytes → Option Bytes
behind [] text = some text
behind (n ∷ name) [] = none
behind (n ∷ name) (c ∷ text) = if n == c then behind name text else none

-- `strncmp(name, text, len) == 0 && text[len] == '='`, and what stands behind the `=`.
unfoldable pub value_of : Bytes → Bytes → Option Bytes
unfolding behind
value_of name text = elim (behind name text) [
  | none ↦ none
  | some rest ↦ elim rest [ [] ↦ none | ◌∷◌ c value ↦ if c == b'=' then some value else none ]
]

-- The loop over the environment.
unfoldable pub find_value : Bytes → List Bytes → Option Bytes
unfolding value_of
find_value name [] = none
find_value name (text ∷ environ) =
    let rest = find_value name environ in
    elim (value_of name text) [ none ↦ rest | some value ↦ some value ]

-- With the buffer at hand, the mutex is given back on both ways out.
unfoldable pub copy_value : (environ : List Bytes) → (name : Bytes) → (envbuf : ℕ) → Prog (Option ℕ)
unfolding find_value
copy_value environ name envbuf = elim (find_value name environ) [
  | none ↦ sys mutex_unlock >> ret none
  | some value ↦ do
    sys (strncpy envbuf value (maxstringsz - 1))
    sys mutex_unlock
    ret (some envbuf)
]

-- The address of the buffer, or NULL.
unfoldable pub getenv : (environ : List Bytes) → (name : Bytes) → Prog (Option ℕ)
unfolding copy_value
getenv environ name = do
  sys pthread_once
  sys mutex_lock
  own ← sys getspecific
  elim own [
    | some envbuf ↦ copy_value environ name envbuf
    | none ↦ do
      got ← sys (malloc maxstringsz)
      elim got [
        | none ↦ sys mutex_unlock >> ret none
        | some envbuf ↦ sys (setspecific envbuf) >> copy_value environ name envbuf
      ]
  ]
