-- ===== src/Barrier/Pick.antt =====
-- What the inner loop of `merge` in pthread/barrier_sort.c picks, over what is left of each part.
use unix_demos.Base.{
  ℕ, zero, suc, ◌+◌, ◌-◌, ◌*◌, ◌≤◌, ◌<◌, ◌≡◌, ◌⊎◌, refl, sym, ◌∙◌, ap, List, [], ◌∷◌, ltb,
  if◌then◌else◌, get_or, length, take, drop, arith, inl, inr, Bool-cases,
}
use unix_demos.Barrier.{Least, pick, bump}

abbrev pub Parts : Type 0
Parts = List (List ℕ)

-- The inner loop on what is left of the parts.
unfoldable pub pick_part : ℕ → Parts → Least → Least
pick_part i [] best = best
pick_part i ([] ∷ rs) best = pick_part (i + 1) rs best
pick_part i ((y ∷ ys) ∷ rs) best =
    pick_part (i + 1) rs (if ltb y best.num then record { num = y; minidx = i } else best)

-- The number `y` stands first in the part `k`, and is taken out.
abbrev pub Pops : (k y : ℕ) → Parts → Parts → Type 0
Pops k y [] rs' = ⊥
Pops zero y (r ∷ rs) rs' = (ys : List ℕ) × (r ≡ y ∷ ys) × (rs' ≡ ys ∷ rs)
Pops (suc k) y (r ∷ rs) rs' = (rs'' : Parts) × Pops k y rs rs'' × (rs' ≡ r ∷ rs'')

abbrev pub Head : ℕ → List ℕ → Type 0
Head n [] = Unit {0}
Head n (y ∷ ys) = n ≤ y

-- No part starts with a number below `n`.
abbrev pub Heads : ℕ → Parts → Type 0
Heads n [] = Unit {0}
Heads n (r ∷ rs) = Head n r × Heads n rs

-- The least first number, if it is below that of `best`, and its part.
pub record Picks (i : ℕ) (rs : Parts) (best b : Least) : Type 0 where
  pub heads : Heads b.num rs
  pub below : b.num ≤ best.num
  pub which : (b ≡ best) ⊎ ((k : ℕ) × (rs' : Parts) × (b.minidx ≡ i + k) × Pops k b.num rs rs')

pub pick_part-Picks : (i : ℕ) (rs : Parts) (best : Least) → Picks i rs best (pick_part i rs best)
unfolding pick_part
pick_part-Picks i [] best = record { heads = tt; below = omega arith; which = inl refl }
pick_part-Picks i ([] ∷ rs) best =
    let p = pick_part-Picks (i + 1) rs best in
    record {
      heads = (tt, p.heads);
      below = p.below;
      which = elim p.which [
        | inl e ↦ inl e
        | inr (k, rs', e, pop) ↦ inr (suc k, [] ∷ rs', omega (arith, e), (rs', pop, refl))
      ];
    }
pick_part-Picks i ((y ∷ ys) ∷ rs) best = elim (Bool-cases (ltb y best.num)) [
  | inl less ↦ rw less (
      let p = pick_part-Picks (i + 1) rs (record { num = y; minidx = i }) in
      record {
        heads = (p.below, p.heads);
        below = ground (arith, p.below);
        which = elim p.which [
          | inl e ↦ inr (
            0,
            ys ∷ rs,
            ap (λ b. b.minidx) e ∙ omega arith,
            (ys, ap (λ b. b.num ∷ ys) (sym e), refl),
          )
          | inr (k, rs', e, pop) ↦ inr (suc k, (y ∷ ys) ∷ rs', omega (arith, e), (rs', pop, refl))
        ];
      })
  | inr more ↦ rw more (
      let p = pick_part-Picks (i + 1) rs best in
      record {
        heads = (ground (arith, p.below), p.heads);
        below = p.below;
        which = elim p.which [
          | inl e ↦ inl e
          | inr (k, rs', e, pop) ↦ inr (suc k, (y ∷ ys) ∷ rs', omega (arith, e), (rs', pop, refl))
        ];
      })
]

module _ (t : ℕ) (nums : List ℕ) where
  -- What is left of the part that ends at `e`, from `x` on.
  abbrev pub rest : (e x : ℕ) → List ℕ
  rest e x = take (e - x) (drop x nums)

  abbrev pub parts_of : ℕ → List ℕ → Parts
  parts_of i [] = []
  parts_of i (x ∷ idx) = rest ((i + 1) * t) x ∷ parts_of (i + 1) idx

  -- Each index stays in its part, and the parts in the array.
  abbrev pub Inside : ℕ → List ℕ → Type 0
  Inside i [] = Unit {0}
  Inside i (x ∷ idx) = ((x ≤ (i + 1) * t) × ((i + 1) * t ≤ length nums)) × Inside (i + 1) idx

rest-cons :
    (nums : List ℕ) (e x : ℕ)
    → x < e
    → e ≤ length nums
    → take (e - x) (drop x nums) ≡ get_or nums x 0 ∷ take (e - (x + 1)) (drop (x + 1) nums)
rest-cons [] e x h le = absurd (omega arith)
rest-cons (n ∷ nums) zero x h le = absurd (omega arith)
rest-cons (n ∷ nums) (suc e) zero h le =
    let short : suc e - 0 ≡ suc e = omega arith in
    let next : suc e - 1 ≡ e = omega arith in rw (short, next) refl
rest-cons (n ∷ nums) (suc e) (suc x) h le =
    let short : suc e - suc x ≡ e - x = omega arith in
    let next : suc x + 1 ≡ suc (x + 1) = omega arith in
    let short' : suc e - suc (x + 1) ≡ e - (x + 1) = omega arith in
    rw (short, next, short') (rest-cons nums e x (omega arith) (omega arith))

rest-nil : (nums : List ℕ) (e x : ℕ) → e ≤ x → take (e - x) (drop x nums) ≡ []
rest-nil nums e x h = let none_left : e - x ≡ 0 = omega arith in rw none_left refl

module _ (t : ℕ) (nums : List ℕ) where
  pub pick-pick_part :
      (i : ℕ) (idx : List ℕ) (best : Least)
      → Inside t nums i idx
      → pick t nums i idx best ≡ pick_part i (parts_of t nums i idx) best
  unfolding pick pick_part
  pick-pick_part i [] best ins = refl
  pick-pick_part i (x ∷ idx) best ((ins1, ins2), ins) = elim (Bool-cases (ltb x ((i + 1) * t))) [
    | inl more ↦
        rw (more, rest-cons nums ((i + 1) * t) x (ground arith) ins2)
          (pick-pick_part (i + 1) idx _ ins)
    | inr done ↦
        rw (done, rest-nil nums ((i + 1) * t) x (ground arith))
          (pick-pick_part (i + 1) idx best ins)
  ]

  pub bump-Pops :
      (i k y : ℕ) (idx : List ℕ) (rs : Parts)
      → Inside t nums i idx
      → Pops k y (parts_of t nums i idx) rs
      → (rs ≡ parts_of t nums i (bump idx k)) × Inside t nums i (bump idx k)
  unfolding bump
  bump-Pops i k y [] rs ins pop = absurd pop
  bump-Pops i zero y (x ∷ idx) rs ((ins1, ins2), ins) (ys, e, e') =
      elim (Bool-cases (ltb x ((i + 1) * t))) [
        | inl more ↦
            let tails =
              ap (drop 1) (sym (rest-cons nums ((i + 1) * t) x (ground arith) ins2) ∙ e) in
            (
              e' ∙ ap (λ r. r ∷ parts_of t nums (i + 1) idx) (sym tails),
              ((ground arith, ins2), ins),
            )
        | inr done ↦ absurd (ground (arith, e, rest-nil nums ((i + 1) * t) x (ground arith)))
      ]
  bump-Pops i (suc k) y (x ∷ idx) rs (ins1, ins) (rs'', pop, e) =
      let (same, ins') = bump-Pops (i + 1) k y idx rs'' ins pop in
      (e ∙ ap (λ ps. rest t nums ((i + 1) * t) x ∷ ps) same, (ins1, ins'))
