-- ===== src/JobQueue/Append.antt =====
-- job_append of pthread/job_queue.c against the list that the queue stands for.
use unix_demos.Base.{
  ℕ, ◌≡◌, ◌≢◌, refl, sym, subst, ◌∙◌, inl, inr, false, ◌||◌, List, [], ◌∷◌, ◌++◌, arith, ==_of_ne,
  snoc-cases,
}
use unix_demos.JobQueue.Heap.{
  Ptr, null, job, Heap, Lock, Queue, write, write_same, Returns, returns, wrlock, set_prev_lem,
  set_next_lem, unlock,
}
use unix_demos.JobQueue.Chain.{
  Jobs, queue, view, Holds-view, has, has-append, first-append, first, last, Chain, Distinct, Holds,
  Chain-frame, Chain-split, Chain-append, Distinct-snoc, Distinct-split, not-has_left, last-append,
}
use unix_demos.JobQueue.Ready.{Ready, Fresh}
use unix_demos.JobQueue.{job_append}

first_snoc :
    (ys : Jobs) (y k p i : ℕ)
    → first ((ys ++ (y, k) ∷ []) ++ (p, i) ∷ []) null ≡ first (ys ++ (y, k) ∷ []) null
first_snoc ys y k p i = simp first-append

module _ (h : Heap) (p : Ptr) (i : ℕ) (o : List ℕ) where
  abbrev AppendsTo : Jobs → Type 0
  AppendsTo xs =
      Chain h null xs null
      → Distinct xs
      → Fresh h xs p i
      → Returns (λ _ t. Ready o (xs ++ (p, i) ∷ []) t) (job_append p (view Lock.free xs h o))

  append-view_nil : AppendsTo []
  unfolding job_append unlock write wrlock
  append-view_nil c d new =
      rw
        (
          set_prev_lem (view Lock.write_locked [] h o) new.ne_null new.there null,
          set_next_lem (view Lock.write_locked [] (write h p (job i null new.next)) o) new.ne_null
              (write_same h p (job i null new.next)) null,
        )
        (returns (record {
          holds = record {
            head = refl;
            tail = refl;
            chain = (ground arith, tt);
            distinct = (new.ne_null, refl, tt);
          };
          unlocked = refl;
          silent = refl;
        }))

  module _ (ys : Jobs) (y : Ptr) (k : ℕ) (c : Chain h null (ys ++ (y, k) ∷ []) null)
      (d : Distinct (ys ++ (y, k) ∷ [])) (new : Fresh h (ys ++ (y, k) ∷ []) p i) where
    append-view_snoc :
        (hd : Ptr)
        → hd ≡ first (ys ++ (y, k) ∷ []) null
        → Returns
            (λ _ t. Ready o ((ys ++ (y, k) ∷ []) ++ (p, i) ∷ []) t)
            (job_append p (queue Lock.free hd y h o))
    unfolding job_append unlock write wrlock
    append-view_snoc hd e =
        let left = Chain-split h null ys ((y, k) ∷ []) null c in
        let y_new : has y ys ≡ false = not-has_left ys y k [] d in
        let p_new : (has p ys || has p ((y, k) ∷ [])) ≡ false =
          rw (has-append p ys ((y, k) ∷ [])) at new.new in
        let y_nz : y ≢ null = (Distinct-split ys ((y, k) ∷ []) d).1.0 in
        let h1 = write h p (job i y new.next) in
        let h2 = write h1 p (job i y null) in
        rw
          (
            set_prev_lem (queue Lock.write_locked hd y h o) new.ne_null new.there y,
            set_next_lem (queue Lock.write_locked hd y h1 o) new.ne_null
                (write_same h p (job i y new.next)) null,
            ==_of_ne y null y_nz,
            set_next_lem (queue Lock.write_locked hd y h2 o) {j = job k (last null ys) null} y_nz
                (ground (arith, left.1.0)) p,
          )
          (returns (record {
            holds = record {
              head = e ∙ sym (first_snoc ys y k p i);
              tail = sym (last-append null (ys ++ (y, k) ∷ []) ((p, i) ∷ []));
              chain =
                  Chain-append _ null (ys ++ (y, k) ∷ []) ((p, i) ∷ []) null
                    (Chain-append _ null ys ((y, k) ∷ []) p
                      (Chain-frame null ys y (λ a m. ground arith) left.0) (ground arith, tt))
                    (rw (last-append null ys ((y, k) ∷ [])) (ground arith), tt);
              distinct = Distinct-snoc (ys ++ (y, k) ∷ []) p i d new.ne_null new.new;
            };
            unlocked = refl;
            silent = refl;
          }))

  append-view : (xs : Jobs) → AppendsTo xs
  append-view xs c d new = elim (snoc-cases xs) [
    | inl e ↦ subst (AppendsTo) (sym e) append-view_nil c d new
    | inr (ys, (y, k), e) ↦
        subst (AppendsTo) (sym e)
          (λ c d new.
            rw (last-append null ys ((y, k) ∷ [])) (append-view_snoc ys y k c d new _ refl))
          c d new
  ]

module _ {s : Queue} {p : Ptr} {i : ℕ} {xs : Jobs} (is : Holds s xs)
    (unlocked : s.q_lock ≡ Lock.free) (new : Fresh s.heap xs p i) where
  -- On a queue that holds some jobs and whose lock is free, job_append puts a fresh job behind
  -- the others, gives the lock back and prints nothing.
  pub job_append-snoc : Returns (λ _ t. Ready s.out (xs ++ (p, i) ∷ []) t) (job_append p s)
  job_append-snoc =
      subst (λ t. Returns (λ _ t. Ready s.out (xs ++ (p, i) ∷ []) t) (job_append p t))
        (sym (Holds-view s xs is unlocked))
        (append-view s.heap p i s.out xs is.chain is.distinct new)
