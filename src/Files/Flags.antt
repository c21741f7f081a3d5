-- ===== src/Files/Flags.antt =====
-- file_io/fcntl_test.c: the flags with which a descriptor was opened, as Linux numbers them.
use unix_demos.Base.{
  ℕ, ◌+◌, ◌/◌, ◌%◌, ◌^◌, ◌≡◌, refl, sym, ap, ◌∙◌, Bool, true, not, ◌||◌, List, [], ◌∷◌, ◌++◌, ◌==◌,
  if◌then◌else◌, codes, arith,
}
use unix_demos.Os.{
  Bytes, fcntl_getfl, fprintf, stdout, Prog, ret, exit, ◌>>=◌, ◌>>◌, sys, skip, or_exit,
}

-- A bit of a number.
abbrev pub bit : (i val : ℕ) → Bool
bit i val = not (val / 2 ^ i % 2 == 0)

-- `val & O_ACCMODE`
abbrev pub accmode : ℕ → ℕ
accmode val = val % 4

-- O_SYNC is the bit of O_DSYNC and one more, and O_RSYNC is O_SYNC.
abbrev pub o_append : ℕ → Bool
o_append val = bit 10 val

abbrev pub o_nonblock : ℕ → Bool
o_nonblock val = bit 11 val

abbrev pub o_dsync : ℕ → Bool
o_dsync val = bit 12 val

abbrev pub o_sync : ℕ → Bool
o_sync val = bit 12 val || bit 20 val

abbrev pub o_rsync : ℕ → Bool
o_rsync val = o_sync val

abbrev pub accmode_text : ℕ → Bytes
accmode_text val =
    if accmode val == 0
    then codes "read only"
    else if accmode val == 1
    then codes "write only"
    else if accmode val == 2
    then codes "read write"
    else codes "unknown access mode"

abbrev pub print_if : Bool → Bytes → Prog (Unit {0})
print_if b text = if b then sys (fprintf stdout text) else skip

unfoldable pub print_flags : (val : ℕ) → Prog ℕ
print_flags val = do
  sys (fprintf stdout (accmode_text val))
  print_if (o_append val) (codes ", append")
  print_if (o_nonblock val) (codes ", nonblocking")
  print_if (o_sync val) (codes ", synchronous writes (data & properties)")
  print_if (o_dsync val) (codes ", synchronous writes (data only)")
  print_if (o_rsync val) (codes ", synchronous reads and write")
  sys (fprintf stdout (codes "\n"))
  ret 0

module _ (atoi : Bytes → ℕ) where
  unfoldable pub fcntl_test : (argv : List Bytes) → Prog ℕ
  unfolding print_flags
  fcntl_test (name ∷ fd ∷ []) = do
    r ← sys (fcntl_getfl (atoi fd))
    val ← or_exit 255 r
    print_flags val
  fcntl_test (name ∷ _) = sys (fprintf 2 (codes "Usage: " ++ (name ++ codes " fd\n"))) >> exit 127
  fcntl_test [] = sys (fprintf 2 (codes "Usage: (null) fd\n")) >> exit 127

-- What is printed, by the access mode and the five tests.
abbrev texts : (access : Bytes) → (append nonblock sync dsync rsync : Bool) → Prog ℕ
texts access append nonblock sync dsync rsync = do
  sys (fprintf stdout access)
  print_if append (codes ", append")
  print_if nonblock (codes ", nonblocking")
  print_if sync (codes ", synchronous writes (data & properties)")
  print_if dsync (codes ", synchronous writes (data only)")
  print_if rsync (codes ", synchronous reads and write")
  sys (fprintf stdout (codes "\n"))
  ret 0

print_flags-texts :
    (val : ℕ)
    → print_flags val
      ≡ texts
          (accmode_text val)
          (o_append val)
          (o_nonblock val)
          (o_sync val)
          (o_dsync val)
          (o_rsync val)
unfolding print_flags
print_flags-texts val = refl

-- With O_DSYNC, the tests of both synchronous modes hold, and the other bit of O_SYNC changes none of them.
o_dsync-tests :
    (val : ℕ)
    → o_dsync val ≡ true
    → (o_dsync (val + 2 ^ 20) ≡ true)
      × (o_sync val ≡ true)
      × (o_sync (val + 2 ^ 20) ≡ true)
      × (o_append (val + 2 ^ 20) ≡ o_append val)
      × (o_nonblock (val + 2 ^ 20) ≡ o_nonblock val)
o_dsync-tests val d =
    let b : (val + 2 ^ 20) / 2 ^ 10 % 2 ≡ val / 2 ^ 10 % 2 = omega arith in
    let c : (val + 2 ^ 20) / 2 ^ 11 % 2 ≡ val / 2 ^ 11 % 2 = omega arith in
    let e : (val + 2 ^ 20) / 2 ^ 12 % 2 ≡ val / 2 ^ 12 % 2 = omega arith in
    let d' : bit 12 (val + 2 ^ 20) ≡ true = ap (λ n. not (n == 0)) e ∙ d in
    (
      d',
      ap (λ x. x || bit 20 val) d,
      ap (λ x. x || bit 20 (val + 2 ^ 20)) d',
      ap (λ n. not (n == 0)) b,
      ap (λ n. not (n == 0)) c,
    )

accmode_text-sync : (val : ℕ) → accmode_text (val + 2 ^ 20) ≡ accmode_text val
accmode_text-sync val =
    let a : accmode (val + 2 ^ 20) ≡ accmode val = omega arith in
    ap
      (λ n.
        if n == 0
        then codes "read only"
        else if n == 1
        then codes "write only"
        else if n == 2
        then codes "read write"
        else codes "unknown access mode")
      a

-- A descriptor with O_DSYNC alone is reported with the same text as one with all of O_SYNC.
pub print_flags-dsync :
    (val : ℕ) → o_dsync val ≡ true → print_flags (val + 2 ^ 20) ≡ print_flags val
print_flags-dsync val d =
    let (a, b, c, e, f) = o_dsync-tests val d in
    print_flags-texts (val + 2 ^ 20)
    ∙ (ap
          (λ x.
            texts x (o_append (val + 2 ^ 20)) (o_nonblock (val + 2 ^ 20)) (o_sync (val + 2 ^ 20))
              (o_dsync (val + 2 ^ 20)) (o_rsync (val + 2 ^ 20)))
          (accmode_text-sync val)
        ∙ (ap
              (λ x.
                texts (accmode_text val) x (o_nonblock (val + 2 ^ 20)) (o_sync (val + 2 ^ 20))
                  (o_dsync (val + 2 ^ 20)) (o_sync (val + 2 ^ 20)))
              e
            ∙ (ap
                  (λ x.
                    texts (accmode_text val) (o_append val) x (o_sync (val + 2 ^ 20))
                      (o_dsync (val + 2 ^ 20)) (o_sync (val + 2 ^ 20)))
                  f
                ∙ (ap
                      (λ x.
                        texts (accmode_text val) (o_append val) (o_nonblock val) x
                          (o_dsync (val + 2 ^ 20)) x)
                      (c ∙ sym b)
                    ∙ (ap
                          (λ x.
                            texts (accmode_text val) (o_append val) (o_nonblock val) (o_sync val) x
                              (o_sync val))
                          (a ∙ sym d)
                        ∙ sym (print_flags-texts val))))))
