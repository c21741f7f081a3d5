-- ===== src/Examples/Sorting.antt =====
-- pthread/barrier_sort.c over insertion sort.
use unix_demos.Base.{
  ℕ, suc, ◌+◌, ◌≤◌, ◌≡◌, ◌≢◌, refl, Bool, true, false, List, [], ◌∷◌, ◌==◌, if◌then◌else◌, length,
  arith, ltb, ◌⊎◌, inl, inr, Bool-cases,
}
use unix_demos.Barrier.{Sign, positive, cmplong, long_max, sort}
use unix_demos.Barrier.Merge.{count, SortedFrom}
use unix_demos.Barrier.Merge.Sort.{Ordered, Sorts, sort-SortedFrom}

abbrev is_positive : Sign → Bool
is_positive positive = true
is_positive _ = false

insert : (ℕ → ℕ → Sign) → ℕ → List ℕ → List ℕ
insert cmp x [] = x ∷ []
insert cmp x (y ∷ ys) =
    let rest = insert cmp x ys in if is_positive (cmp x y) then y ∷ rest else x ∷ y ∷ ys

insertion_sort : (ℕ → ℕ → Sign) → List ℕ → List ℕ
unfolding insert
insertion_sort cmp [] = []
insertion_sort cmp (x ∷ xs) = insert cmp x (insertion_sort cmp xs)

count-insert :
    (x : ℕ) (xs : List ℕ) (z : ℕ)
    → count z (insert cmplong x xs) ≡ (if z == x then 1 else 0) + count z xs
unfolding insert
count-insert x [] z = refl
count-insert x (y ∷ ys) z = ground (arith, count-insert x ys z)

length-insert : (x : ℕ) (xs : List ℕ) → length (insert cmplong x xs) ≡ suc (length xs)
unfolding insert
length-insert x [] = refl
length-insert x (y ∷ ys) = ground (arith, length-insert x ys)

greater :
    (x y : ℕ)
    → ((is_positive (cmplong x y) ≡ true) × (cmplong y x ≢ positive))
      ⊎ ((is_positive (cmplong x y) ≡ false) × (cmplong x y ≢ positive))
unfolding cmplong
greater x y = elim (Bool-cases (ltb y x)) [
  | inl less ↦ inl (ground arith, λ e. ground arith)
  | inr other ↦ inr (ground arith, λ e. ground arith)
]

insert-Ordered : (x : ℕ) (xs : List ℕ) → Ordered cmplong xs → Ordered cmplong (insert cmplong x xs)
unfolding insert
insert-Ordered x [] o = tt
insert-Ordered x (y ∷ []) o = elim (greater x y) [
  | inl (e, le) ↦ rw e (le, tt)
  | inr (e, le) ↦ rw e (le, tt)
]
insert-Ordered x (y ∷ z ∷ zs) (o1, o) =
    let rest = insert-Ordered x (z ∷ zs) o in
    elim (greater x y) [
      | inr (e, le) ↦ rw e (le, (o1, o))
      | inl (e, le) ↦ elim (greater x z) [
        | inl (e', le') ↦ rw (e, e') (o1, rw e' at rest)
        | inr (e', le') ↦ rw (e, e') (le, rw e' at rest)
      ]
    ]

sort-Ordered : (xs : List ℕ) → Ordered cmplong (insertion_sort cmplong xs)
unfolding insertion_sort
sort-Ordered [] = tt
sort-Ordered (x ∷ xs) = insert-Ordered x _ (sort-Ordered xs)

count-sort : (xs : List ℕ) (z : ℕ) → count z (insertion_sort cmplong xs) ≡ count z xs
unfolding insertion_sort
count-sort [] z = refl
count-sort (x ∷ xs) z =
    ground (arith, count-insert x (insertion_sort cmplong xs) z, count-sort xs z)

length-sort : (xs : List ℕ) → length (insertion_sort cmplong xs) ≡ length xs
unfolding insertion_sort
length-sort [] = refl
length-sort (x ∷ xs) = ground (arith, length-insert x (insertion_sort cmplong xs), length-sort xs)

insertion_sort-Sorts : Sorts insertion_sort
insertion_sort-Sorts = record { ordered = sort-Ordered; same = count-sort; size = length-sort }

abbrev six : List ℕ
six = 5 ∷ 3 ∷ 9 ∷ 3 ∷ 0 ∷ 7 ∷ []

six_below : (z : ℕ) → long_max ≤ z → count z six ≡ 0
six_below z h = ground arith

sort-SortedFrom_example :
    SortedFrom 0 (sort insertion_sort 2 3 0 six)
    × ((z : ℕ) → count z (sort insertion_sort 2 3 0 six) ≡ count z six)
sort-SortedFrom_example =
    sort-SortedFrom insertion_sort insertion_sort-Sorts 2 3 0 six refl six_below
