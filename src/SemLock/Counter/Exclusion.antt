-- ===== src/SemLock/Counter/Exclusion.antt =====
-- What every interleaving of the two threads of IPC/semlock_test.c keeps.
use unix_demos.Base.{
  ℕ, zero, suc, ◌+◌, ◌^◌, ◌≤◌, ◌<◌, ◌≡◌, ◌⊎◌, inl, inr, refl, some, arith, Option-cases, Bool-cases,
  ltb,
}
use unix_demos.SemLock.{s_lock, s_unlock}
use unix_demos.SemLock.Counter.{
  Shared, Pc, test, locking, reading, writing, unlocking, returned, thr_fn, System, start, step1,
  step2, Reach, here, first, second,
}

-- 1 between the return of `s_lock` and that of `s_unlock`.
abbrev pub inside : Pc → ℕ
inside (reading i) = 1
inside (writing i v) = 1
inside (unlocking i) = 1
inside _ = 0

-- The additions that a thread has made.
abbrev pub added : ℕ → Pc → ℕ
added n (test i) = i
added n (locking i) = i
added n (reading i) = i
added n (writing i v) = i
added n (unlocking i) = i + 1
added n returned = n

-- The count of rounds stays in the loop, and what was read is still in the variable.
abbrev pub Sane : ℕ → ℕ → Pc → Type 0
Sane n cnt (test i) = i ≤ n
Sane n cnt (locking i) = i < n
Sane n cnt (reading i) = i < n
Sane n cnt (writing i v) = (i < n) × (v ≡ cnt)
Sane n cnt (unlocking i) = i < n
Sane n cnt returned = Unit {0}

pub record Inv (n : ℕ) (m : Shared) (p q : Pc) : Type 0 where
  pub one : inside p + inside q + m.sem ≡ 1
  pub sum : m.cnt ≡ added n p + added n q
  pub sane1 : Sane n m.cnt p
  pub sane2 : Sane n m.cnt q

added-le : (n cnt : ℕ) (p : Pc) → Sane n cnt p → added n p ≤ n
added-le n cnt (test i) s = s
added-le n cnt (locking i) s = omega arith
added-le n cnt (reading i) s = omega arith
added-le n cnt (writing i v) s = omega arith
added-le n cnt (unlocking i) s = omega arith
added-le n cnt returned s = omega arith

s_lock-cases : (v : ℕ) → (v ≡ 0) ⊎ ((w : ℕ) × (s_lock v ≡ some w))
unfolding s_lock
s_lock-cases zero = inl refl
s_lock-cases (suc v) = inr (v, refl)

module _ (n : ℕ) (small : n + n < 2 ^ 32) where
  thr_fn-Inv :
      (p : Pc) {q p' : Pc} {m m' : Shared}
      → Inv n m p q
      → thr_fn n p m ≡ some (p', m')
      → Inv n m' p' q
  unfolding thr_fn s_lock s_unlock
  thr_fn-Inv (test i) {q} {m = m} inv e = ground (arith, added-le n m.cnt q inv.sane2)
  thr_fn-Inv (locking i) {q} {m = m} inv e = ground (arith, added-le n m.cnt q inv.sane2)
  thr_fn-Inv (reading i) {q} {m = m} inv e = ground (arith, added-le n m.cnt q inv.sane2)
  thr_fn-Inv (writing i v) {q} {m = m} inv e = ground (arith, added-le n m.cnt q inv.sane2)
  thr_fn-Inv (unlocking i) {q} {m = m} inv e = ground (arith, added-le n m.cnt q inv.sane2)
  thr_fn-Inv returned inv e = cc

  Inv-swap : {m : Shared} {p q : Pc} → Inv n m p q → Inv n m q p
  Inv-swap inv = record {
    one = omega arith;
    sum = omega arith;
    sane1 = inv.sane2;
    sane2 = inv.sane1;
  }

  step1-Inv :
      {s t : System} → Inv n s.mem s.pc1 s.pc2 → step1 n s ≡ some t → Inv n t.mem t.pc1 t.pc2
  unfolding step1
  step1-Inv {s} {t} inv e = elim (Option-cases (thr_fn n s.pc1 s.mem)) [
    | inl e' ↦ absurd (ground arith)
    | inr ((p, m), e') ↦ ground (arith, thr_fn-Inv s.pc1 inv e')
  ]

  step2-Inv :
      {s t : System} → Inv n s.mem s.pc1 s.pc2 → step2 n s ≡ some t → Inv n t.mem t.pc1 t.pc2
  unfolding step2
  step2-Inv {s} {t} inv e = elim (Option-cases (thr_fn n s.pc2 s.mem)) [
    | inl e' ↦ absurd (ground arith)
    | inr ((p, m), e') ↦ let inv' = Inv-swap (thr_fn-Inv s.pc2 (Inv-swap inv) e') in ground arith
  ]

  pub Reach-Inv : {s : System} → Reach n s → Inv n s.mem s.pc1 s.pc2
  unfolding start
  Reach-Inv here = record { one = refl; sum = refl; sane1 = omega arith; sane2 = omega arith }
  Reach-Inv (first r e) = step1-Inv (Reach-Inv r) e
  Reach-Inv (second r e) = step2-Inv (Reach-Inv r) e

  -- With twice the number of rounds below 2^32, in no reachable state are the two threads both
  -- between s_lock and s_unlock.
  pub mutual_exclusion : {s : System} → Reach n s → inside s.pc1 + inside s.pc2 ≤ 1
  mutual_exclusion r = omega (arith, (Reach-Inv r).one)

  -- In every interleaving of the two threads, with twice the number of rounds below 2^32: no
  -- addition is lost; once both threads have returned, cnt is the number of all rounds.
  pub cnt-returned :
      {s : System} → Reach n s → s.pc1 ≡ returned → s.pc2 ≡ returned → s.mem.cnt ≡ n + n
  cnt-returned r e1 e2 = ground (arith, (Reach-Inv r).sum)

  -- A thread has returned, waits for the semaphore, or makes a step.
  data Waits (p : Pc) (m : Shared) : Type 0 where
    done : p ≡ returned → Waits p m
    blocked : (i : ℕ) → p ≡ locking i → m.sem ≡ 0 → Waits p m
    runs : (x : Pc × Shared) → thr_fn n p m ≡ some x → Waits p m

  waits : (p : Pc) (m : Shared) → Waits p m
  unfolding thr_fn
  waits (test i) m = elim (Bool-cases (ltb i n)) [
    | inl e ↦ runs (locking i, m) (rw e)
    | inr e ↦ runs (returned, m) (rw e)
  ]
  waits (locking i) m = elim (s_lock-cases m.sem) [
    | inl e ↦ blocked i refl e
    | inr (v, e) ↦ runs (reading i, record m { sem = v }) (rw (e, thr_fn))
  ]
  waits (reading i) m = runs _ refl
  waits (writing i v) m = runs _ refl
  waits (unlocking i) m = runs _ refl
  waits returned m = done refl

  inside_runs : (p : Pc) (m : Shared) → inside p ≡ 1 → (x : Pc × Shared) × (thr_fn n p m ≡ some x)
  unfolding thr_fn
  inside_runs (test i) m e = absurd (omega arith)
  inside_runs (locking i) m e = absurd (omega arith)
  inside_runs (reading i) m e = (_, refl)
  inside_runs (writing i v) m e = (_, refl)
  inside_runs (unlocking i) m e = (_, refl)
  inside_runs returned m e = absurd (omega arith)

  step1-runs :
      (s : System) (x : Pc × Shared)
      → thr_fn n s.pc1 s.mem ≡ some x
      → (t : System) × (step1 n s ≡ some t)
  unfolding step1
  step1-runs s x e = (record s { mem = x.1; pc1 = x.0 }, ground arith)

  step2-runs :
      (s : System) (x : Pc × Shared)
      → thr_fn n s.pc2 s.mem ≡ some x
      → (t : System) × (step2 n s ≡ some t)
  unfolding step2
  step2-runs s x e = (record s { mem = x.1; pc2 = x.0 }, ground arith)

  -- With twice the number of rounds below 2^32, in every reachable state, until both threads
  -- have returned, one of them can make a step.
  pub no_deadlock :
      {s : System}
      → Reach n s
      → ((s.pc1 ≡ returned) × (s.pc2 ≡ returned))
        ⊎ (((t : System) × (step1 n s ≡ some t)) ⊎ ((t : System) × (step2 n s ≡ some t)))
  no_deadlock {s} r = elim (waits s.pc1 s.mem) [
    | done e1 ↦ elim (waits s.pc2 s.mem) [
      | done e2 ↦ inl (e1, e2)
      | blocked i e2 z ↦ absurd (ground (arith, (Reach-Inv r).one))
      | runs x e2 ↦ inr (inr (step2-runs s x e2))
    ]
    | blocked i e1 z ↦
        let (x, e2) = inside_runs s.pc2 s.mem (ground (arith, (Reach-Inv r).one)) in
        inr (inr (step2-runs s x e2))
    | runs x e1 ↦ inr (inl (step1-runs s x e1))
  ]
