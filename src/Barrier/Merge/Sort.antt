-- ===== src/Barrier/Merge/Sort.antt =====
-- pthread/barrier_sort.c as a whole, over a `qsort` that does what the C library says.
use unix_demos.Base.{
  ℕ, zero, suc, ◌+◌, ◌-◌, ◌*◌, ◌≤◌, ◌≡◌, ◌≢◌, refl, sym, subst, ◌∙◌, ap, ap₂, List, [], ◌∷◌, ◌++◌,
  append_assoc, length, length-append, take, drop, arith,
}
use unix_demos.Barrier.{Sign, positive, cmplong, long_max, starts, merge, thr_fns, sort}
use unix_demos.Barrier.Pick.{Parts, parts_of, Inside}
use unix_demos.Barrier.Merge.{
  count, count_parts, total, SortedFrom, AllFrom, Below, merge_loop-sorted,
}

-- No number is greater than the next one.
abbrev pub Ordered : (ℕ → ℕ → Sign) → List ℕ → Type 0
Ordered cmp [] = Unit {0}
Ordered cmp (x ∷ []) = Unit {0}
Ordered cmp (x ∷ y ∷ ys) = (cmp x y ≢ positive) × Ordered cmp (y ∷ ys)

-- What `qsort` promises.
pub record Sorts (qsort : (ℕ → ℕ → Sign) → List ℕ → List ℕ) : Type 0 where
  pub ordered : (xs : List ℕ) → Ordered cmplong (qsort cmplong xs)
  pub same : (xs : List ℕ) (z : ℕ) → count z (qsort cmplong xs) ≡ count z xs
  pub size : (xs : List ℕ) → length (qsort cmplong xs) ≡ length xs

cmplong-positive : (x y : ℕ) → cmplong x y ≢ positive → x ≤ y
unfolding cmplong
cmplong-positive x y h = ground arith

Ordered-SortedFrom :
    (lo : ℕ) (xs : List ℕ)
    → Ordered cmplong xs
    → ((x : ℕ) (ys : List ℕ) → xs ≡ x ∷ ys → lo ≤ x)
    → SortedFrom lo xs
Ordered-SortedFrom lo [] o h = tt
Ordered-SortedFrom lo (x ∷ []) o h = (h x [] refl, tt)
Ordered-SortedFrom lo (x ∷ y ∷ ys) (o1, o) h = (
  h x (y ∷ ys) refl,
  Ordered-SortedFrom x (y ∷ ys) o (λ x' ys' e. ground (arith, cmplong-positive x y o1)),
)

take-length : (n : ℕ) (xs : List ℕ) → n ≤ length xs → length (take n xs) ≡ n
take-length zero xs h = refl
take-length (suc n) [] h = absurd (omega arith)
take-length (suc n) (x ∷ xs) h = ap suc (take-length n xs (omega arith))

drop-length : (n : ℕ) (xs : List ℕ) → length (drop n xs) ≡ length xs - n
drop-length zero xs = omega arith
drop-length (suc n) [] = omega arith
drop-length (suc n) (x ∷ xs) = drop-length n xs ∙ omega arith

take-append : (xs ys : List ℕ) → take (length xs) (xs ++ ys) ≡ xs
take-append [] ys = refl
take-append (x ∷ xs) ys = ap (λ zs. x ∷ zs) (take-append xs ys)

drop-append : (xs ys : List ℕ) → drop (length xs) (xs ++ ys) ≡ ys
drop-append [] ys = refl
drop-append (x ∷ xs) ys = drop-append xs ys

count-append : (z : ℕ) (xs ys : List ℕ) → count z (xs ++ ys) ≡ count z xs + count z ys
count-append z [] ys = omega arith
count-append z (x ∷ xs) ys = omega (arith, count-append z xs ys)

count-take : (z n : ℕ) (xs : List ℕ) → count z (take n xs) + count z (drop n xs) ≡ count z xs
count-take z zero xs = omega arith
count-take z (suc n) [] = refl
count-take z (suc n) (x ∷ xs) = omega (arith, count-take z n xs)

module _ (qsort : (ℕ → ℕ → Sign) → List ℕ → List ℕ) (sorts : Sorts qsort) (t : ℕ) where
  left_over :
      (parts : ℕ) (nums : List ℕ)
      → length nums ≡ suc parts * t
      → (t ≤ length nums) × (length (drop t nums) ≡ parts * t)
  left_over parts nums e = (omega (arith, e), omega (arith, e, drop-length t nums))

  -- The parts that the threads sort.
  chunks : (parts : ℕ) → List ℕ → Parts
  chunks zero nums = []
  chunks (suc parts) nums = qsort cmplong (take t nums) ∷ chunks parts (drop t nums)

  chunks-AllFrom : (parts : ℕ) (nums : List ℕ) → AllFrom 0 (chunks parts nums)
  unfolding chunks
  chunks-AllFrom zero nums = tt
  chunks-AllFrom (suc parts) nums = (
    Ordered-SortedFrom 0 _ (sorts.ordered (take t nums)) (λ x ys e. omega arith),
    chunks-AllFrom parts (drop t nums),
  )

  chunks-count :
      (z parts : ℕ) (nums : List ℕ)
      → length nums ≡ parts * t
      → count_parts z (chunks parts nums) ≡ count z nums
  unfolding chunks
  chunks-count z zero [] e = refl
  chunks-count z zero (x ∷ nums) e = absurd (omega (arith, e))
  chunks-count z (suc parts) nums e = omega (
    arith,
    sorts.same (take t nums) z,
    count-take z t nums,
    chunks-count z parts (drop t nums) ((left_over parts nums e).1),
  )

  chunks-total :
      (parts : ℕ) (nums : List ℕ) → length nums ≡ parts * t → total (chunks parts nums) ≡ parts * t
  unfolding chunks
  chunks-total zero nums e = omega arith
  chunks-total (suc parts) nums e =
      let (le, e') = left_over parts nums e in
      omega (
        arith,
        sorts.size (take t nums),
        take-length t nums le,
        chunks-total parts (drop t nums) e',
      )

  thr_fns-length :
      (parts : ℕ) (nums : List ℕ)
      → length nums ≡ parts * t
      → length (thr_fns qsort t parts nums) ≡ parts * t
  unfolding thr_fns
  thr_fns-length zero nums e = omega arith
  thr_fns-length (suc parts) nums e =
      let (le, e') = left_over parts nums e in
      omega (
        arith,
        length-append (qsort cmplong (take t nums)) (thr_fns qsort t parts (drop t nums)),
        sorts.size (take t nums),
        take-length t nums le,
        thr_fns-length parts (drop t nums) e',
      )

  parts_of-chunks :
      (parts i : ℕ) (front nums : List ℕ)
      → length front ≡ i * t
      → length nums ≡ parts * t
      → parts_of t (front ++ thr_fns qsort t parts nums) i (starts t parts i) ≡ chunks parts nums
  unfolding thr_fns chunks starts
  parts_of-chunks zero i front nums e e' = refl
  parts_of-chunks (suc parts) i front nums e e' =
      let (le, rest) = left_over parts nums e' in
      let q = qsort cmplong (take t nums) in
      let tail = thr_fns qsort t parts (drop t nums) in
      let whole : length q ≡ t = sorts.size (take t nums) ∙ take-length t nums le in
      let size : (i + 1) * t - i * t ≡ length q = omega (arith, whole) in
      let first : take ((i + 1) * t - i * t) (drop (i * t) (front ++ (q ++ tail))) ≡ q =
        rw (sym e, drop-append front (q ++ tail)) (rw (e, size) (take-append q tail)) in
      let others =
        parts_of-chunks parts (i + 1) (front ++ q) (drop t nums)
          (length-append front q ∙ omega (arith, e, whole)) rest in
      ap₂ (λ r rs. r ∷ rs) first (rw (append_assoc front q tail) at others)

  starts-Inside :
      (parts i : ℕ) (nums : List ℕ)
      → i * t + parts * t ≤ length nums
      → Inside t nums i (starts t parts i)
  unfolding starts
  starts-Inside zero i nums h = tt
  starts-Inside (suc parts) i nums h =
      ((omega arith, omega (arith, h)), starts-Inside parts (i + 1) nums (omega (arith, h)))

  -- If as many numbers as there are places in the parts are sorted, all of them below LONG_MAX,
  -- over a qsort that does what the C library says, then they come out in order, each as often
  -- as it went in, whatever minidx starts as.
  pub sort-SortedFrom :
      (parts stack : ℕ) (nums : List ℕ)
      → length nums ≡ parts * t
      → ((z : ℕ) → long_max ≤ z → count z nums ≡ 0)
      → SortedFrom 0 (sort qsort t parts stack nums)
        × ((z : ℕ) → count z (sort qsort t parts stack nums) ≡ count z nums)
  unfolding sort merge
  sort-SortedFrom parts stack nums e below =
      let nums' = thr_fns qsort t parts nums in
      let whole = parts_of-chunks parts 0 [] nums (omega arith) e in
      let counts = λ (z : ℕ). chunks-count z parts nums e in
      let (sorted, all) =
        merge_loop-sorted t nums' (parts * t) stack 0 (starts t parts 0)
          (starts-Inside parts 0 nums' (omega (arith, thr_fns-length parts nums e)))
          (subst (AllFrom 0) (sym whole) (chunks-AllFrom parts nums))
          (subst (Below long_max) (sym whole) (λ z above. counts z ∙ below z above))
          (ap total whole ∙ chunks-total parts nums e) in
      (sorted, λ z. all z ∙ (ap (count_parts z) whole ∙ counts z))
