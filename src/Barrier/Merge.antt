-- ===== src/Barrier/Merge.antt =====
-- The outer loop of `merge` in pthread/barrier_sort.c: from sorted parts, all their numbers in order.
pub mod Sort
use unix_demos.Base.{
  ℕ, zero, suc, ◌+◌, ◌-◌, ◌*◌, ◌≤◌, ◌<◌, ◌≡◌, ◌≢◌, ◌⊎◌, refl, sym, subst, ◌∙◌, ap, Bool, true,
  false, List, [], ◌∷◌, ◌++◌, ◌==◌, if◌then◌else◌, length, arith, inl, inr, ==_refl,
}
use unix_demos.Barrier.{Least, long_max, pick, bump, merge_loop}
use unix_demos.Barrier.Pick.{
  Parts, Pops, Head, Heads, Picks, pick_part, pick_part-Picks, parts_of, Inside, pick-pick_part,
  bump-Pops,
}

-- How often a number stands in a list, and in what is left of the parts.
abbrev pub count : ℕ → List ℕ → ℕ
count z [] = 0
count z (y ∷ ys) = (if z == y then 1 else 0) + count z ys

abbrev pub count_parts : ℕ → Parts → ℕ
count_parts z [] = 0
count_parts z (r ∷ rs) = count z r + count_parts z rs

abbrev pub total : Parts → ℕ
total [] = 0
total (r ∷ rs) = length r + total rs

-- In order, and nothing below `lo`.
abbrev pub SortedFrom : ℕ → List ℕ → Type 0
SortedFrom lo [] = Unit {0}
SortedFrom lo (y ∷ ys) = (lo ≤ y) × SortedFrom y ys

abbrev pub AllFrom : ℕ → Parts → Type 0
AllFrom lo [] = Unit {0}
AllFrom lo (r ∷ rs) = SortedFrom lo r × AllFrom lo rs

Pops-count :
    (z k y : ℕ) (rs rs' : Parts)
    → Pops k y rs rs'
    → count_parts z rs ≡ (if z == y then 1 else 0) + count_parts z rs'
Pops-count z k y [] rs' pop = absurd pop
Pops-count z zero y (r ∷ rs) rs' (ys, e, e') = rw (e, e') (omega arith)
Pops-count z (suc k) y (r ∷ rs) rs' (rs'', pop, e) =
    rw e (omega (arith, Pops-count z k y rs rs'' pop))

Pops-total : (k y : ℕ) (rs rs' : Parts) → Pops k y rs rs' → total rs ≡ suc (total rs')
Pops-total k y [] rs' pop = absurd pop
Pops-total zero y (r ∷ rs) rs' (ys, e, e') = rw (e, e') (omega arith)
Pops-total (suc k) y (r ∷ rs) rs' (rs'', pop, e) = rw e (omega (arith, Pops-total k y rs rs'' pop))

SortedFrom-raise : (lo n : ℕ) (r : List ℕ) → SortedFrom lo r → Head n r → SortedFrom n r
SortedFrom-raise lo n [] s h = tt
SortedFrom-raise lo n (y ∷ ys) (s1, s) h = (h, s)

AllFrom-raise : (lo n : ℕ) (rs : Parts) → AllFrom lo rs → Heads n rs → AllFrom n rs
AllFrom-raise lo n [] s h = tt
AllFrom-raise lo n (r ∷ rs) (s1, s) (h1, h) =
    (SortedFrom-raise lo n r s1 h1, AllFrom-raise lo n rs s h)

Pops-AllFrom :
    (lo k y : ℕ) (rs rs' : Parts)
    → Pops k y rs rs'
    → AllFrom lo rs
    → Heads y rs
    → (lo ≤ y) × AllFrom y rs'
Pops-AllFrom lo k y [] rs' pop s h = absurd pop
Pops-AllFrom lo zero y (r ∷ rs) rs' (ys, e, e') (s1, s) (h1, h) =
    let (le, sorted) = subst (SortedFrom lo) e s1 in
    (le, subst (AllFrom y) (sym e') (sorted, AllFrom-raise lo y rs s h))
Pops-AllFrom lo (suc k) y (r ∷ rs) rs' (rs'', pop, e) (s1, s) (h1, h) =
    let (le, sorted) = Pops-AllFrom lo k y rs rs'' pop s h in
    (le, subst (AllFrom y) (sym e) (SortedFrom-raise lo y r s1 h1, sorted))

-- Every number is below `m`.
abbrev pub Below : ℕ → Parts → Type 0
Below m rs = (z : ℕ) → m ≤ z → count_parts z rs ≡ 0

Heads-total : (m : ℕ) (rs : Parts) → Below m rs → Heads m rs → total rs ≡ 0
Heads-total m [] b h = refl
Heads-total m ([] ∷ rs) b (h1, h) =
    omega (arith, Heads-total m rs (λ z le. omega (arith, b z le)) h)
Heads-total m ((y ∷ ys) ∷ rs) b (h1, h) = absurd (ground (arith, b y h1))

total-count : (z : ℕ) (rs : Parts) → total rs ≡ 0 → count_parts z rs ≡ 0
total-count z [] e = refl
total-count z ([] ∷ rs) e = omega (arith, total-count z rs (omega (arith, e)))
total-count z ((y ∷ ys) ∷ rs) e = absurd (omega (arith, e))

module _ (t : ℕ) (nums : List ℕ) where
  pub merge_loop-sorted :
      (n minidx lo : ℕ) (idx : List ℕ)
      → Inside t nums 0 idx
      → AllFrom lo (parts_of t nums 0 idx)
      → Below long_max (parts_of t nums 0 idx)
      → total (parts_of t nums 0 idx) ≡ n
      → SortedFrom lo (merge_loop t nums n idx minidx)
        × ((z : ℕ)
            → count z (merge_loop t nums n idx minidx) ≡ count_parts z (parts_of t nums 0 idx))
  unfolding merge_loop
  merge_loop-sorted zero minidx lo idx ins s b e =
      (tt, λ z. sym (total-count z (parts_of t nums 0 idx) e))
  merge_loop-sorted (suc n) minidx lo idx ins s b e =
      let best : Least = record { num = long_max; minidx = minidx } in
      let rs = parts_of t nums 0 idx in
      let m = pick_part 0 rs best in
      let p = pick_part-Picks 0 rs best in
      rw (pick-pick_part t nums 0 idx best ins) (elim p.which [
        | inl same ↦ absurd (
            omega (
              arith,
              e,
              Heads-total long_max rs b (subst (λ m. Heads m rs) (ap (λ b. b.num) same) p.heads),
            ))
        | inr (k, rs', place, pop) ↦
            let place' : k ≡ m.minidx = omega (arith, place) in
            let pop' = subst (λ k. Pops k m.num rs rs') place' pop in
            let (left, ins') = bump-Pops t nums 0 m.minidx m.num idx rs' ins pop' in
            let (le, s') = Pops-AllFrom lo m.minidx m.num rs rs' pop' s p.heads in
            let counts = λ (z : ℕ). Pops-count z m.minidx m.num rs rs' pop' in
            let (sorted, all) =
              merge_loop-sorted n m.minidx m.num (bump idx m.minidx) ins'
                (subst (AllFrom m.num) left s')
                (subst (Below long_max) left (λ z above. omega (arith, counts z, b z above)))
                (ap total (sym left) ∙ omega (arith, e, Pops-total m.minidx m.num rs rs' pop')) in
            ((le, sorted), λ z. omega (arith, all z, ap (count_parts z) left, counts z))
      ])
