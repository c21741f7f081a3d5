-- ===== src/Barrier.antt =====
-- pthread/barrier_sort.c: each thread sorts its part of the numbers, and behind a barrier the parts are
-- merged. The numbers are not negative, as random() gives them.
pub mod Pick
pub mod Merge
use unix_demos.Base.{
  ℕ, zero, suc, ◌+◌, ◌-◌, ◌*◌, ◌^◌, Bool, true, false, ◌&&◌, List, [], ◌∷◌, ◌++◌, ◌==◌, ltb,
  if◌then◌else◌, get_or, take, drop,
}

abbrev pub nthr : ℕ
nthr = 8

abbrev pub tnum : ℕ
tnum = 1000000

abbrev pub long_max : ℕ
long_max = 2 ^ 63 - 1

pub data Sign : Type 0 where
  negative equal positive : Sign

unfoldable pub cmplong : ℕ → ℕ → Sign
cmplong l1 l2 = if l1 == l2 then equal else if ltb l1 l2 then negative else positive

-- `num` and `minidx`
pub record Least : Type 0 where
  pub num : ℕ
  pub minidx : ℕ

-- `idx[minidx] += 1`
unfoldable pub bump : List ℕ → ℕ → List ℕ
bump [] i = []
bump (x ∷ idx) zero = (x + 1) ∷ idx
bump (x ∷ idx) (suc i) = x ∷ bump idx i

-- Where the parts start: `idx[i] = i*TNUM`.
unfoldable pub starts : (t parts i : ℕ) → List ℕ
starts t zero i = []
starts t (suc parts) i = i * t ∷ starts t parts (i + 1)

module _ (t : ℕ) (nums : List ℕ) where
  -- The inner loop of `merge` from the part `i` on.
  unfoldable pub pick : (i : ℕ) → (idx : List ℕ) → Least → Least
  pick i [] best = best
  pick i (x ∷ idx) best = pick (i + 1) idx (
      if ltb x ((i + 1) * t) && ltb (get_or nums x 0) best.num
      then record { num = get_or nums x 0; minidx = i }
      else best)

  -- The outer loop of `merge`, with `n` places of `snums` left.
  unfoldable pub merge_loop : (n : ℕ) → (idx : List ℕ) → (minidx : ℕ) → List ℕ
  unfolding pick bump
  merge_loop zero idx minidx = []
  merge_loop (suc n) idx minidx =
      let best = pick 0 idx (record { num = long_max; minidx = minidx }) in
      best.num ∷ merge_loop n (bump idx best.minidx) best.minidx

  -- `minidx` starts as whatever the stack holds.
  unfoldable pub merge : (parts stack : ℕ) → List ℕ
  unfolding merge_loop starts
  merge parts stack = merge_loop (parts * t) (starts t parts 0) stack

-- What the threads leave in `nums`: the part at each of the indices sorted.
unfoldable pub thr_fns :
    (qsort : (ℕ → ℕ → Sign) → List ℕ → List ℕ) → (t parts : ℕ) → List ℕ → List ℕ
thr_fns qsort t zero nums = []
thr_fns qsort t (suc parts) nums =
    qsort cmplong (take t nums) ++ thr_fns qsort t parts (drop t nums)

-- `main` between the two readings of the clock: the barrier lets `merge` start when all threads are done.
unfoldable pub sort :
    (qsort : (ℕ → ℕ → Sign) → List ℕ → List ℕ) → (t parts stack : ℕ) → List ℕ → List ℕ
unfolding thr_fns merge
sort qsort t parts stack nums = merge t (thr_fns qsort t parts nums) parts stack
