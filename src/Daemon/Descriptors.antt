-- ===== src/Daemon/Descriptors.antt =====
-- What daemon/daemonize.c does to the table of open descriptors, over a kernel that hands out the
-- lowest free one.
use Prim.Native.String.{String}
use unix_demos.Base.{
  ℕ, zero, suc, ◌+◌, ◌<◌, ◌≤◌, ◌≡◌, ◌∙◌, Bool, true, false, not, ◌&&◌, ◌||◌, some, arith, ◌==◌, ltb,
  Bool-cases, inl, inr,
}
use unix_demos.Os.{close, dup, open_file, openlog, ◌>>◌}
use unix_demos.Os.Run.{Kernel, returned, run, and_then, run->>=}
use unix_demos.Daemon.{close_all, attach}
use unix_demos.Daemon.Sequence.{close_all-returned}

-- `n` is the lowest number that is free in the first table, and is taken in the second.
pub record Lowest (before after : ℕ → Bool) (n : ℕ) : Type 0 where
  pub free : before n ≡ false
  pub lowest : (m : ℕ) → m < n → before m ≡ true
  pub taken : (j : ℕ) → after j ≡ (j == n || before j)

-- What the calls do to the table, when none of them fails.
pub record Descriptors {K : Type 0} (kernel : Kernel K) : Type 0 where
  pub fds : K → ℕ → Bool
  pub closes : (s : K) (fd j : ℕ) → fds (kernel (close fd) s).1 j ≡ (not (j == fd) && fds s j)
  pub opens :
      (s : K) (path : String)
      → (n : ℕ) × ((kernel (open_file path) s).0 ≡ some n)
        × Lowest (fds s) (fds (kernel (open_file path) s).1) n
  pub dups :
      (s : K) (fd : ℕ)
      → fds s fd ≡ true
      → (n : ℕ) × ((kernel (dup fd) s).0 ≡ some n) × Lowest (fds s) (fds (kernel (dup fd) s).1) n
  pub logs : (s : K) (j : ℕ) → fds (kernel openlog s).1 j ≡ fds s j

none_below : (j : ℕ) → false ≡ ltb j 0
none_below j = ground arith

-- Where exactly the numbers below `k` are taken, the next one is `k`.
next_is : (f g : ℕ → Bool) (k n : ℕ) → ((j : ℕ) → f j ≡ ltb j k) → Lowest f g n → n ≡ k
next_is f g k n below low = ground (arith, below n, below k, low.lowest k)

next_below :
    (f g : ℕ → Bool) (k : ℕ)
    → ((j : ℕ) → f j ≡ ltb j k)
    → Lowest f g k
    → (j : ℕ) → g j ≡ ltb j (k + 1)
next_below f g k below low j = ground (arith, below j, low.taken j)

module _ {K : Type 0} (kernel : Kernel K) (table : Descriptors kernel) where
  open table use {fds, closes, opens, dups, logs}

  close_all-free :
      (n i : ℕ) (s : K)
      → ((j : ℕ) → fds s j ≡ true → (i ≤ j) × (j < i + n))
      → (j : ℕ) → fds (run kernel (close_all n i) s).after j ≡ false
  unfolding run close_all
  close_all-free zero i s within j = elim (Bool-cases (fds s j)) [
    | inl e ↦ absurd (let (a, b) = within j e in omega arith)
    | inr e ↦ e
  ]
  close_all-free (suc n) i s within j =
      close_all-free n (i + 1) (kernel (close i) s).1
        (λ j e.
          let (a, b) = within j (ground (arith, closes s i j)) in ground (arith, closes s i j))
        j

  -- The numbers below `k`, and no others, are open.
  abbrev pub Open : K → ℕ → Type 0
  Open s k = (j : ℕ) → fds s j ≡ ltb j k

  opens_next :
      (s : K) (k : ℕ) (path : String)
      → Open s k
      → ((kernel (open_file path) s).0 ≡ some k) × Open (kernel (open_file path) s).1 (k + 1)
  opens_next s k path below =
      let (n, e, low) = opens s path in
      let same = next_is _ _ k n below low in
      (rw same at e, next_below _ _ k below (rw same at low))

  dups_next :
      (s : K) (k : ℕ)
      → 0 < k
      → Open s k
      → ((kernel (dup 0) s).0 ≡ some k) × Open (kernel (dup 0) s).1 (k + 1)
  dups_next s k pos below =
      let (n, e, low) = dups s 0 (ground (arith, below 0)) in
      let same = next_is _ _ k n below low in
      (rw same at e, next_below _ _ k below (rw same at low))

  attach-standard :
      (s : K)
      → Open s 0
      → ((run kernel attach s).ended ≡ returned tt) × Open (run kernel attach s).after 3
  unfolding run attach
  attach-standard s none_open =
      let s1 = (kernel (open_file "/dev/null") s).1 in
      let s2 = (kernel (dup 0) s1).1 in
      let s3 = (kernel (dup 0) s2).1 in
      let (e0, o1) = opens_next s 0 "/dev/null" none_open in
      let (e1, o2) = dups_next s1 1 (omega arith) o1 in
      let (e2, o3) = dups_next s2 2 (omega arith) o2 in
      (ground (arith, e0, e1, e2), λ j. ground (arith, e0, e1, e2, logs s3 j, o3 j))

  -- With every open descriptor below n, closing n descriptors and opening /dev/null leaves
  -- exactly 0, 1 and 2 open, and the check of the three never ends the daemon, over a kernel
  -- that hands out the lowest free descriptor.
  pub close_all-attach :
      (n : ℕ) (s : K)
      → ((j : ℕ) → fds s j ≡ true → j < n)
      → let d = run kernel (close_all n 0 >> attach) s in
        (d.ended ≡ returned tt) × ((j : ℕ) → fds d.after j ≡ ltb j 3)
  unfolding and_then
  close_all-attach n s within =
      let s1 = (run kernel (close_all n 0) s).after in
      let whole = run->>= kernel (close_all n 0) (λ _. attach) s in
      let ended = (close_all-returned kernel n 0 s).0 in
      let (back, three) = attach-standard s1 (λ j.
        close_all-free n 0 s (λ k e. (omega arith, ground (arith, within k))) j ∙ none_below j) in
      (ground (arith, whole, ended, back), λ j. ground (arith, whole, ended, three j))
