-- ===== src/Files/Users.antt =====
-- sys_info/getpwnam_demo.c: the user database is read until the name is found.
use unix_demos.Base.{
  num, ℕ, zero, suc, ◌<◌, Bool, true, false, Option, none, some, List, [], ◌∷◌, ◌++◌, if◌then◌else◌,
  same_text, length, codes, arith,
}
use unix_demos.Os.{
  Bytes, Passwd, setpwent, getpwent, endpwent, fprintf, stdout, Prog, ret, fault, ◌>>=◌, ◌>>◌, sys,
}
use unix_demos.Os.Run.{
  Kernel, returned, Reply, Answers, Answers-split, Makes, Makes-invoke, Makes-ret, Makes->>=,
}

-- The loop, at most `n` rounds long.
unfoldable pub find_entry : (n : ℕ) → (name : Bytes) → Prog (Option Passwd)
find_entry zero name = ret none
find_entry (suc n) name = do
  ptr ← sys getpwent
  elim ptr [
    | none ↦ ret none
    | some pw ↦ if same_text pw.pw_name name then ret (some pw) else find_entry n name
  ]

unfoldable pub getpwdname : (n : ℕ) → (name : Bytes) → Prog (Option Passwd)
unfolding find_entry
getpwdname n name = do sys setpwent; ptr ← find_entry n name; sys endpwent; ret ptr

abbrev pub user_text : Passwd → Bytes
user_text pw =
    codes "name: "
    ++ (pw.pw_name
        ++ (codes "\npasswd: "
            ++ (pw.pw_passwd
                ++ (codes "\nuid: "
                    ++ (num pw.pw_uid
                        ++ (codes "\ngid: "
                            ++ (num pw.pw_gid
                                ++ (codes "\necos: "
                                    ++ (pw.pw_gecos
                                        ++ (codes "\nhome: "
                                            ++ (pw.pw_dir
                                                ++ (codes "\nshell: "
                                                    ++ (pw.pw_shell ++ codes "\n")))))))))))))

-- `main` reads the entry without a test for NULL.
unfoldable pub main : (n : ℕ) → Prog ℕ
unfolding getpwdname
main n = do
  ptr ← getpwdname n (codes "zach41")
  elim ptr [ none ↦ fault | some pw ↦ sys (fprintf stdout (user_text pw)) >> ret 0 ]

-- The first entry with the name.
abbrev pub lookup_user : (name : Bytes) → List Passwd → Option Passwd
lookup_user name [] = none
lookup_user name (pw ∷ pws) = if same_text pw.pw_name name then some pw else lookup_user name pws

-- What is read of the entries of the database: up to the first with the name, or to the end.
abbrev pub entries : (name : Bytes) → List Passwd → List Reply → List Reply
entries name [] rest = (getpwent, none) ∷ rest
entries name (pw ∷ pws) rest =
    (getpwent, some pw) ∷ (if same_text pw.pw_name name then rest else entries name pws rest)

module _ {K : Type 0} (kernel : Kernel K) where
  found :
      (b : Bool) (pw : Passwd) (next : Prog (Option Passwd)) (more : List Reply)
      (later : Option Passwd) {s : K}
      → Answers kernel s (if b then [] else more)
      → (Answers kernel s more → Makes kernel next s more (returned later))
      → Makes kernel
          (if b then ret (some pw) else next)
          s
          (if b then [] else more)
          (returned (if b then some pw else later))
  found true pw next more later a h = Makes-ret kernel
  found false pw next more later a h = h a

  find_entry-lookup :
      (pws : List Passwd) (n : ℕ) (name : Bytes) (s : K)
      → length pws < n
      → Answers kernel s (entries name pws [])
      → Makes kernel (find_entry n name) s (entries name pws []) (returned (lookup_user name pws))
  unfolding find_entry
  find_entry-lookup [] zero name s room a = absurd (omega (arith, room))
  find_entry-lookup [] (suc n) name s room (a, u) = Makes-invoke kernel a (Makes-ret kernel)
  find_entry-lookup (pw ∷ pws) zero name s room a = absurd (omega (arith, room))
  find_entry-lookup (pw ∷ pws) (suc n) name s room (a, rest) = Makes-invoke kernel a (
      found (same_text pw.pw_name name) pw (find_entry n name) (entries name pws []) _ rest
        (find_entry-lookup pws n name (kernel getpwent s).1 (omega (arith, room))))

  -- getpwdname_ opens the database, reads it up to the first entry with the name, or to its
  -- end, closes it, and answers that entry, or NULL, if there are rounds enough.
  pub getpwdname-lookup :
      (pws : List Passwd) (n : ℕ) (name : Bytes) (s : K)
      → length pws < n
      → let rs = (setpwent, tt) ∷ (entries name pws [] ++ (endpwent, tt) ∷ []) in
        Answers kernel s rs
        → Makes kernel (getpwdname n name) s rs (returned (lookup_user name pws))
  unfolding getpwdname
  getpwdname-lookup pws n name s room (a, rest) =
      let s1 = (kernel setpwent s).1 in
      let (b, c) = Answers-split kernel s1 (entries name pws []) ((endpwent, tt) ∷ []) rest in
      Makes-invoke kernel a (
        Makes->>= kernel (λ ptr. sys endpwent >> ret ptr) (find_entry-lookup pws n name s1 room b)
          (Makes-invoke kernel c.0 (Makes-ret kernel)))
