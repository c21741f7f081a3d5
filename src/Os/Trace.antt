-- ===== src/Os/Trace.antt =====
-- The calls that a run makes, each with the answer that it got.
use unix_demos.Base.{
  ℕ, ◌≡◌, refl, ap, subst, sym, Bool, true, false, Option, none, some, if◌then◌else◌, List, [], ◌∷◌,
  ◌++◌, arith,
}
use unix_demos.Os.{Call, R, syslog, Prog, ret, exit, fault, invoke, ◌>>=◌, ◌>>◌, sys, skip, or_exit}
use unix_demos.Os.Run.{Kernel, returned, run, Reply}

module _ {K : Type 0} (kernel : Kernel K) where
  unfoldable pub trace : {A : Type 0} → Prog A → K → List Reply
  trace (ret a) s = []
  trace (exit status) s = []
  trace fault s = []
  trace (invoke c f) s =
      let rest = trace (f (kernel c s).0) (kernel c s).1 in (c, (kernel c s).0) ∷ rest

  pub trace-ret : {A : Type 0} (a : A) (s : K) → trace (ret a) s ≡ []
  unfolding trace
  trace-ret a s = refl

  pub trace-invoke :
      {A : Type 0} (c : Call) (f : R c → Prog A) (s : K) {r : R c} {rs : List Reply}
      → (kernel c s).0 ≡ r
      → trace (f r) (kernel c s).1 ≡ rs
      → trace (invoke c f) s ≡ (c, r) ∷ rs
  unfolding trace
  trace-invoke c f s {r} {rs} a m =
      subst (λ r'. trace (invoke c f) s ≡ (c, r') ∷ rs) a
        (ap (λ ts. (c, (kernel c s).0) ∷ ts)
          (subst (λ r'. trace (f r') (kernel c s).1 ≡ rs) (sym a) m))

  pub trace->>= :
      {A B : Type 0} (p : Prog A) (k : A → Prog B) (s : K) {a : A}
      → (run kernel p s).ended ≡ returned a
      → trace (p >>= k) s ≡ trace p s ++ trace (k a) (run kernel p s).after
  unfolding trace run
  trace->>= (ret a) k s e = ap (λ x. trace (k x) s) (ground (arith, e))
  trace->>= (exit status) k s e = absurd (ground (arith, e))
  trace->>= fault k s e = absurd (ground (arith, e))
  trace->>= (invoke c f) k s e =
      ap (λ ts. (c, (kernel c s).0) ∷ ts) (trace->>= (f (kernel c s).0) k (kernel c s).1 e)

  -- What a run that comes through a check of an answer knows of it.
  pub or_exit-returned :
      {A B : Type 0} (status : ℕ) (o : Option A) (k : A → Prog B) (s : K) {b : B}
      → (run kernel (or_exit status o >>= k) s).ended ≡ returned b
      → (a : A) × (o ≡ some a) × ((run kernel (k a) s).ended ≡ returned b)
  unfolding run
  or_exit-returned status none k s e = absurd (ground (arith, e))
  or_exit-returned status (some a) k s e = (a, refl, e)

  pub exit_if-returned :
      {B : Type 0} (status : ℕ) (x : Bool) (k : Unit {0} → Prog B) (s : K) {b : B}
      → (run kernel ((if x then exit status else skip) >>= k) s).ended ≡ returned b
      → (x ≡ false) × ((run kernel (k tt) s).ended ≡ returned b)
  unfolding run
  exit_if-returned status true k s e = absurd (ground (arith, e))
  exit_if-returned status false k s e = (refl, e)

  pub log_exit_if-returned :
      {B : Type 0} (status : ℕ) (x : Bool) (k : Unit {0} → Prog B) (s : K) {b : B}
      → (run kernel ((if x then sys syslog >> exit status else skip) >>= k) s).ended ≡ returned b
      → (x ≡ false) × ((run kernel (k tt) s).ended ≡ returned b)
  unfolding run
  log_exit_if-returned status true k s e = absurd (ground (arith, e))
  log_exit_if-returned status false k s e = (refl, e)
