-- ===== src/Foo/Counting.antt =====
-- What interleaved holds and releases do to the reference count of pthread/pthread_mutex.c.
use unix_demos.Base.{
  ℕ, zero, suc, ◌+◌, ◌^◌, ◌<◌, ◌≡◌, ◌⊎◌, inl, inr, refl, sym, ◌∙◌, some, List, [], ◌∷◌, arith,
}
use unix_demos.Foo.{Cell, live, freed, foo_hold, foo_rele, Op, hold, rele, call, run}
use unix_demos.Foo.Interleaving.{Interleaving, stop, left, right}

abbrev pub counted : ℕ → ℕ → Cell
counted id n = live (record { f_count = n; f_id = id })

-- `h` holds, then `r` releases.
unfoldable pub script : ℕ → ℕ → List Op
script zero zero = []
script zero (suc r) = rele ∷ script zero r
script (suc h) r = hold ∷ script h r

call_hold : (id n : ℕ) → n + 1 < 2 ^ 32 → call hold (counted id n) ≡ some (counted id (n + 1))
unfolding call foo_hold
call_hold id n small = ground arith

call_rele :
    (id n : ℕ) → n + 2 < 2 ^ 32 → call rele (counted id (suc (suc n))) ≡ some (counted id (n + 1))
unfolding call foo_rele
call_rele id n small = ground arith

call_last : (id : ℕ) → call rele (counted id 1) ≡ some freed
unfolding call foo_rele
call_last id = refl

-- A thread is done, or it releases more often than it still holds.
abbrev pub Owes : ℕ → ℕ → Type 0
Owes h r = (h < r) ⊎ ((h ≡ 0) × (r ≡ 0))

Owes-zero : (r : ℕ) → Owes 0 r
Owes-zero zero = inr (refl, refl)
Owes-zero (suc r) = inl (omega arith)

-- The count is what the threads still give back, less what they still take.
pub record Balanced (n h1 r1 h2 r2 : ℕ) : Type 0 where
  pub sum : n + h1 + h2 ≡ r1 + r2
  pub pos : 0 < n
  pub small : r1 + r2 < 2 ^ 32
  pub owes1 : Owes h1 r1
  pub owes2 : Owes h2 r2

Balanced-swap : {n h1 r1 h2 r2 : ℕ} → Balanced n h1 r1 h2 r2 → Balanced n h2 r2 h1 r1
Balanced-swap b = record {
  sum = omega arith;
  pos = b.pos;
  small = omega arith;
  owes1 = b.owes2;
  owes2 = b.owes1;
}

-- The first call of a script, and the script that is left.
data Head (a : Op) (xs : List Op) : ℕ → ℕ → Type 0 where
  holds : {h r : ℕ} → a ≡ hold → xs ≡ script h r → Head a xs (suc h) r
  reles : {r : ℕ} → a ≡ rele → xs ≡ script 0 r → Head a xs 0 (suc r)

Head-of_cons : {a : Op} {xs : List Op} (h r : ℕ) → a ∷ xs ≡ script h r → Head a xs h r
unfolding script
Head-of_cons zero zero e = cc
Head-of_cons zero (suc r) e = reles (cc) (cc)
Head-of_cons (suc h) r e = holds (cc) (cc)

-- What a call leaves: the object, with the threads that are left in balance, or nothing of either.
data After (a : Op) (xs : List Op) (id n h2 r2 : ℕ) : Type 0 where
  goes_on :
      (h1 r1 m : ℕ)
      → xs ≡ script h1 r1
      → Balanced m h1 r1 h2 r2
      → call a (counted id n) ≡ some (counted id m)
      → After a xs id n h2 r2
  ends : xs ≡ [] → h2 ≡ 0 → r2 ≡ 0 → call a (counted id n) ≡ some freed → After a xs id n h2 r2

After-rele :
    (id n r h2 r2 : ℕ) {xs : List Op}
    → xs ≡ script 0 r
    → Balanced n 0 (suc r) h2 r2
    → After rele xs id n h2 r2
unfolding script
After-rele id zero r h2 r2 e b = absurd (omega arith)
After-rele id (suc zero) zero h2 r2 e b = ends e (omega arith) (omega arith) (call_last id)
After-rele id (suc zero) (suc r) h2 r2 e b = absurd (omega arith)
After-rele id (suc (suc n)) r h2 r2 e b =
    goes_on 0 r (n + 1) e
      (record {
        sum = omega arith;
        pos = omega arith;
        small = omega arith;
        owes1 = Owes-zero r;
        owes2 = b.owes2;
      })
      (call_rele id n (omega arith))

after :
    {a : Op} {xs : List Op} {h1 r1 : ℕ} (id n h2 r2 : ℕ)
    → Head a xs h1 r1
    → Balanced n h1 r1 h2 r2
    → After a xs id n h2 r2
after id n h2 r2 (holds {h} {r} e e') b = rw e (
    goes_on h r (n + 1) e'
      (record {
        sum = omega arith;
        pos = omega arith;
        small = omega arith;
        owes1 = inl (omega arith);
        owes2 = b.owes2;
      })
      (call_hold id n (omega arith)))
after id n h2 r2 (reles {r} e e') b = rw e (After-rele id n r h2 r2 e' b)

Interleaving-nil : {xs ys zs : List Op} → Interleaving xs ys zs → xs ≡ [] → ys ≡ [] → zs ≡ []
Interleaving-nil stop p q = refl
Interleaving-nil (left il) p q = cc
Interleaving-nil (right il) p q = cc

script_done : (h r : ℕ) → script h r ≡ [] → (h ≡ 0) × (r ≡ 0)
unfolding script
script_done zero zero e = (refl, refl)
script_done zero (suc r) e = cc
script_done (suc h) r e = cc

script_nil : (h r : ℕ) → h ≡ 0 → r ≡ 0 → script h r ≡ []
unfolding script
script_nil zero zero p q = refl
script_nil zero (suc r) p q = cc
script_nil (suc h) r p q = cc

run-After :
    {a : Op} {xs zs : List Op} {id n h2 r2 : ℕ}
    → After a xs id n h2 r2
    → ((h1 r1 m : ℕ)
        → xs ≡ script h1 r1
        → Balanced m h1 r1 h2 r2
        → run zs (counted id m) ≡ some freed)
    → (xs ≡ [] → h2 ≡ 0 → r2 ≡ 0 → zs ≡ [])
    → run (a ∷ zs) (counted id n) ≡ some freed
unfolding run
run-After (goes_on h1 r1 m e b c) more none_left = rw (c, run) (more h1 r1 m e b)
run-After (ends e p q c) more none_left = rw (c, none_left e p q, run)

pub run-Interleaving :
    {xs ys zs : List Op} (id : ℕ) {h1 r1 h2 r2 n : ℕ}
    → Interleaving xs ys zs
    → xs ≡ script h1 r1
    → ys ≡ script h2 r2
    → Balanced n h1 r1 h2 r2
    → run zs (counted id n) ≡ some freed
unfolding run
run-Interleaving id {h1} {r1} {h2} {r2} stop p q b =
    let (z1, z1') = script_done h1 r1 (sym p) in
    let (z2, z2') = script_done h2 r2 (sym q) in absurd (omega (arith, b.sum, b.pos))
run-Interleaving id {h1} {r1} {h2} {r2} (left il) p q b =
    run-After (after id _ h2 r2 (Head-of_cons h1 r1 p) b)
      (λ h r m e b'. run-Interleaving id il e q b')
      (λ e z z'. Interleaving-nil il e (q ∙ script_nil h2 r2 z z'))
run-Interleaving id {h1} {r1} {h2} {r2} (right il) p q b =
    run-After (after id _ h1 r1 (Head-of_cons h2 r2 q) (Balanced-swap b))
      (λ h r m e b'. run-Interleaving id il p e (Balanced-swap b'))
      (λ e z z'. Interleaving-nil il (p ∙ script_nil h1 r1 z z') e)
