-- ===== src/Os/Run.antt =====
-- A program run against a kernel: how it ends, and the calls that it makes.
use unix_demos.Base.{
  Option, none, some, arith, ◌⊎◌, inl, inr, ℕ, ◌≡◌, refl, ap, subst, sym, List, [], ◌∷◌, ◌++◌,
}
use unix_demos.Os.{Bytes, Call, R, Prog, ret, exit, fault, invoke, ◌>>=◌}

-- The kernel answers each call and moves to another state of its own.
abbrev pub Kernel : Type 0 → Type 0
Kernel K = (c : Call) → K → R c × K

pub data Ended (A : Type 0) : Type 0 where
  returned : A → Ended A
  exited : ℕ → Ended A
  crashed : Ended A

pub record Done (K A : Type 0) : Type 0 where
  pub ended : Ended A
  pub calls : List Call
  pub after : K

module _ {K : Type 0} (kernel : Kernel K) where
  unfoldable pub run : {A : Type 0} → Prog A → K → Done K A
  run (ret a) s = record { ended = returned a; calls = []; after = s }
  run (exit status) s = record { ended = exited status; calls = []; after = s }
  run fault s = record { ended = crashed; calls = []; after = s }
  run (invoke c f) s =
      let rest = run (f (kernel c s).0) (kernel c s).1 in
      record { ended = rest.ended; calls = c ∷ rest.calls; after = rest.after }

  -- What a further program adds to a run.
  unfoldable pub and_then : {A B : Type 0} → Done K A → (A → Prog B) → Done K B
  and_then d k = elim d.ended [
    | returned a ↦
        let rest = run (k a) d.after in
        record { ended = rest.ended; calls = d.calls ++ rest.calls; after = rest.after }
    | exited status ↦ record { ended = exited status; calls = d.calls; after = d.after }
    | crashed ↦ record { ended = crashed; calls = d.calls; after = d.after }
  ]

  pub run->>= :
      {A B : Type 0} (p : Prog A) (k : A → Prog B) (s : K) → run (p >>= k) s ≡ and_then (run p s) k
  unfolding run and_then
  run->>= (ret a) k s = refl
  run->>= (exit status) k s = refl
  run->>= fault k s = refl
  run->>= (invoke c f) k s = rw (run->>= (f (kernel c s).0) k (kernel c s).1) (ground arith)

-- A call and its answer.
abbrev pub Reply : Type 0
Reply = (c : Call) × R c

abbrev pub calls_of : List Reply → List Call
calls_of [] = []
calls_of ((c, r) ∷ rs) = c ∷ calls_of rs

-- From this state, the kernel gives these answers to these calls.
abbrev pub Answers : {K : Type 0} → Kernel K → K → List Reply → Type 0
Answers kernel s [] = Unit {0}
Answers kernel s ((c, r) ∷ rs) = ((kernel c s).0 ≡ r) × Answers kernel (kernel c s).1 rs

-- A failed read, the end of the input, and a text.
pub read_cases :
    (r : Option Bytes)
    → (r ≡ none) ⊎ ((r ≡ some []) ⊎ ((c : ℕ) × (cs : Bytes) × (r ≡ some (c ∷ cs))))
read_cases none = inl refl
read_cases (some []) = inr (inl refl)
read_cases (some (c ∷ cs)) = inr (inr (c, cs, refl))

pub Ended-cases :
    {A : Type 0} (e : Ended A)
    → ((a : A) × (e ≡ returned a)) ⊎ (((n : ℕ) × (e ≡ exited n)) ⊎ (e ≡ crashed))
Ended-cases (returned a) = inl (a, refl)
Ended-cases (exited n) = inr (inl (n, refl))
Ended-cases crashed = inr (inr refl)

module _ {K : Type 0} (kernel : Kernel K) where
  -- The state after these calls.
  abbrev pub after_calls : K → List Reply → K
  after_calls s [] = s
  after_calls s ((c, r) ∷ rs) = after_calls (kernel c s).1 rs

  -- The program makes exactly these calls and ends so.
  pub record Makes {A : Type 0} (p : Prog A) (s : K) (rs : List Reply) (e : Ended A) : Type 0 where
    pub ended : (run kernel p s).ended ≡ e
    pub calls : (run kernel p s).calls ≡ calls_of rs
    pub after : (run kernel p s).after ≡ after_calls s rs

  pub Answers-split :
      (s : K) (rs ts : List Reply)
      → Answers kernel s (rs ++ ts)
      → Answers kernel s rs × Answers kernel (after_calls s rs) ts
  Answers-split s [] ts a = (tt, a)
  Answers-split s ((c, r) ∷ rs) ts (a1, a) =
      let (b, b') = Answers-split (kernel c s).1 rs ts a in ((a1, b), b')

  calls_of-append : (rs ts : List Reply) → calls_of (rs ++ ts) ≡ calls_of rs ++ calls_of ts
  calls_of-append [] ts = refl
  calls_of-append ((c, r) ∷ rs) ts = ap (λ cs. c ∷ cs) (calls_of-append rs ts)

  after_calls-append :
      (s : K) (rs ts : List Reply) → after_calls s (rs ++ ts) ≡ after_calls (after_calls s rs) ts
  after_calls-append s [] ts = refl
  after_calls-append s ((c, r) ∷ rs) ts = after_calls-append (kernel c s).1 rs ts

  pub Makes->>= :
      {A B : Type 0} {p : Prog A} (k : A → Prog B) {s : K} {rs ts : List Reply} {a : A}
      {e : Ended B}
      → Makes p s rs (returned a)
      → Makes (k a) (after_calls s rs) ts e
      → Makes (p >>= k) s (rs ++ ts) e
  unfolding and_then
  Makes->>= {p} k {s} {rs} {ts} {a} m1 m2 =
      let whole = run->>= kernel p k s in
      record {
        ended = ground (arith, whole, m1.ended, m1.after, m2.ended);
        calls =
            ground (arith, whole, m1.ended, m1.calls, m1.after, m2.calls, calls_of-append rs ts);
        after = ground (arith, whole, m1.ended, m1.after, m2.after, after_calls-append s rs ts);
      }

  pub Makes-invoke :
      {A : Type 0} {c : Call} {f : R c → Prog A} {s : K} {r : R c} {rs : List Reply} {e : Ended A}
      → (kernel c s).0 ≡ r
      → Makes (f r) (kernel c s).1 rs e
      → Makes (invoke c f) s ((c, r) ∷ rs) e
  unfolding run
  Makes-invoke {c} {f} {s} {r} {rs} {e} a m =
      let m' = subst (λ r. Makes (f r) (kernel c s).1 rs e) (sym a) m in
      record { ended = m'.ended; calls = ap (λ cs. c ∷ cs) m'.calls; after = m'.after }

  pub Makes-ret : {A : Type 0} {a : A} {s : K} → Makes (ret a) s [] (returned a)
  unfolding run
  Makes-ret = record { ended = refl; calls = refl; after = refl }

  -- Where the program returns, it has made these calls.
  abbrev pub Called : {A : Type 0} → Prog A → List Call → Type 0
  Called {A} p cs =
      (s : K) (a : A) → (run kernel p s).ended ≡ returned a → (run kernel p s).calls ≡ cs

  pub Called->>= :
      {A B : Type 0} (p : Prog A) (k : A → Prog B) {cs ds : List Call}
      → Called p cs
      → ((a : A) → Called (k a) ds)
      → Called (p >>= k) (cs ++ ds)
  unfolding and_then
  Called->>= p k c d s b e =
      let whole = run->>= kernel p k s in
      elim (Ended-cases (run kernel p s).ended) [
        | inl (a, e1) ↦ ground (arith, whole, e1, c s a e1, d a (run kernel p s).after b)
        | inr (inl (n, e1)) ↦ absurd (ground (arith, whole, e1))
        | inr (inr e1) ↦ absurd (ground (arith, whole, e1))
      ]

  -- A run that returns comes through both of its parts.
  pub run->>=-returned :
      {A B : Type 0} (p : Prog A) (k : A → Prog B) (s : K) {b : B}
      → (run kernel (p >>= k) s).ended ≡ returned b
      → (a : A) × ((run kernel p s).ended ≡ returned a)
        × ((run kernel (k a) (run kernel p s).after).ended ≡ returned b)
        × ((run kernel (p >>= k) s).calls
            ≡ (run kernel p s).calls ++ (run kernel (k a) (run kernel p s).after).calls)
  unfolding and_then
  run->>=-returned p k s e =
      let whole = run->>= kernel p k s in
      elim (Ended-cases (run kernel p s).ended) [
        | inl (a, e1) ↦ (a, e1, ground (arith, whole, e1), ground (arith, whole, e1))
        | inr (inl (n, e1)) ↦ absurd (ground (arith, whole, e1))
        | inr (inr e1) ↦ absurd (ground (arith, whole, e1))
      ]
