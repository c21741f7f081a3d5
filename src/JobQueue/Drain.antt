-- ===== src/JobQueue/Drain.antt =====
-- The second loop of `thr_fn1` in pthread/job_queue.c, which takes every job out again, and the thread
-- as a whole.
use unix_demos.Base.{
  ℕ, zero, suc, ◌+◌, ◌≡◌, ◌≢◌, refl, sym, ap, ◌∙◌, append-nil, append_assoc, Bool-cases, inl, inr,
  true, false, [], ◌∷◌, ◌++◌, arith, ◌==◌, ==_iff,
}
use unix_demos.JobQueue.Heap.{Ptr, Lock, Queue, Returns, returns, Returns-and_then, ◌>>◌}
use unix_demos.JobQueue.Chain.{
  Jobs, has, has-append, Distinct, Distinct-split, not-has_left, Holds, Holds-print, copies,
}
use unix_demos.JobQueue.Ready.{Ready}
use unix_demos.JobQueue.Remove.{job_remove-append}
use unix_demos.JobQueue.Fill.{Allocates, Covers, add_none, add_shift, fill-Ready}
use unix_demos.JobQueue.{inserting, deleting, drain, thr_fn1, njobs, queue_init}

has_split :
    (p : Ptr) (xs : Jobs)
    → has p xs ≡ true
    → (ys : Jobs) × (k : ℕ) × (zs : Jobs) × (xs ≡ ys ++ (p, k) ∷ zs)
has_split p [] m = cc
has_split p ((q, k) ∷ xs) m = elim (Bool-cases (p == q)) [
  | inl e ↦ ([], k, xs, rw ((==_iff p q).0 e))
  | inr e ↦
      let (ys, l, zs, e') = has_split p xs (ground arith) in
      ((q, k) ∷ ys, l, zs, ap (λ t. (q, k) ∷ t) e')
]

module _ (malloc : ℕ → Ptr) (ok : Allocates malloc) where
  Covers-remove :
      (lo hi : ℕ) (ys : Jobs) (k : ℕ) (zs : Jobs)
      → Distinct (ys ++ (malloc lo, k) ∷ zs)
      → Covers malloc lo hi (ys ++ (malloc lo, k) ∷ zs)
      → Covers malloc (lo + 1) hi (ys ++ zs)
  Covers-remove lo hi ys k zs d cov =
      let p = malloc lo in
      let left : has p ys ≡ false = not-has_left ys p k zs d in
      let right : has p zs ≡ false = (Distinct-split ys ((p, k) ∷ zs) d).1.1 in
      record {
        only = λ a m.
            let (j, l, h, e) =
              cov.only a (ground (arith, has-append a ys zs, has-append a ys ((p, k) ∷ zs))) in
            let ne : lo ≢ j = λ same.
              let at_p : a ≡ p = e ∙ ap malloc (sym same) in ground (arith, has-append a ys zs) in
            (j, omega arith, h, e);
        each = λ j l h.
            let ne : malloc j ≢ p = λ same. omega (arith, ok.once j lo same) in
            ground (
              arith,
              cov.each j,
              has-append (malloc j) ys zs,
              has-append (malloc j) ys ((p, k) ∷ zs),
            );
      }

  Covers-none : (lo : ℕ) (xs : Jobs) → Covers malloc lo lo xs → xs ≡ []
  Covers-none lo [] cov = refl
  Covers-none lo ((p, k) ∷ xs) cov =
      absurd (let (j, l, h, e) = cov.only p (ground (arith)) in omega arith)

  drain-nil :
      (n i : ℕ) {s : Queue} {xs : Jobs}
      → Holds s xs
      → s.q_lock ≡ Lock.free
      → Covers malloc i (i + n) xs
      → Returns (λ _ t. Ready (s.out ++ copies n deleting) [] t) (drain malloc n i s)
  unfolding drain copies
  drain-nil zero i {s} {xs} is unlocked cov =
      let e : xs ≡ [] = Covers-none i xs (rw (add_none i) at cov) in
      returns (record { holds = rw e at is; unlocked = unlocked; silent = sym (append-nil s.out) })
  drain-nil (suc n) i {s} {xs} is unlocked cov =
      let (ys, k, zs, e) = has_split (malloc i) xs (cov.each i (omega arith) (omega arith)) in
      let is' : Holds s (ys ++ (malloc i, k) ∷ zs) = rw e at is in
      let cov' : Covers malloc i (i + suc n) (ys ++ (malloc i, k) ∷ zs) = rw e at cov in
      Returns-and_then
        (job_remove-append (malloc i) k ys zs (Holds-print (s.out ++ deleting) is') unlocked)
        λ _ t ready.
          rw (← append_assoc s.out deleting (copies n deleting), ← ready.silent)
            (drain-nil n (i + 1) ready.holds ready.unlocked
              (rw (add_shift i n) at (Covers-remove i (i + suc n) ys k zs is'.distinct cov')))

  -- From a queue that holds no job and whose lock is free, and with a malloc that gives no null
  -- and no address twice, thr_fn1 returns (no fault, no wait for ever) with the queue empty and
  -- the lock free, and has printed the line "inserting" twenty times and then "deleting" twenty
  -- times.
  pub thr_fn1-nil :
      {s : Queue}
      → Holds s []
      → s.q_lock ≡ Lock.free
      → Returns
          (λ _ t. Ready (s.out ++ (copies 20 inserting ++ copies 20 deleting)) [] t)
          (thr_fn1 malloc s)
  unfolding thr_fn1
  thr_fn1-nil is unlocked =
      Returns-and_then (fill-Ready malloc ok njobs 0 is unlocked none_yet) λ _ t (ready, cov).
        rw (← append_assoc _ (copies 20 inserting) (copies 20 deleting), ← ready.silent)
          (drain-nil njobs 0 ready.holds ready.unlocked cov)
    where
      none_yet : Covers malloc 0 0 []
      none_yet = record { only = λ a m. cc; each = λ j l h. absurd (omega arith) }

  -- The thread from the state that queue_init leaves.
  pub queue_init-thr_fn1 :
      (s : Queue)
      → Returns
          (λ _ t. Ready (s.out ++ (copies 20 inserting ++ copies 20 deleting)) [] t)
          ((queue_init 0 >> thr_fn1 malloc) s)
  unfolding queue_init
  queue_init-thr_fn1 s =
      thr_fn1-nil (record { head = refl; tail = refl; chain = tt; distinct = tt }) refl
