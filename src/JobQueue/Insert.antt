-- ===== src/JobQueue/Insert.antt =====
-- job_insert of pthread/job_queue.c against the list that the queue stands for.
use unix_demos.Base.{ℕ, ◌≡◌, refl, sym, subst, List, [], ◌∷◌, arith, ==_of_ne}
use unix_demos.JobQueue.Heap.{
  Ptr, null, job, Heap, Lock, Queue, write, write_same, Returns, returns, wrlock, set_prev_lem,
  set_next_lem, unlock,
}
use unix_demos.JobQueue.Chain.{Jobs, view, Holds-view, first, Chain, Distinct, Holds, Chain-frame}
use unix_demos.JobQueue.Ready.{Ready, Fresh}
use unix_demos.JobQueue.{job_insert}

module _ {h : Heap} {o : List ℕ} {p : Ptr} {i : ℕ} where
  insert-view :
      (xs : Jobs)
      → Chain h null xs null
      → Distinct xs
      → Fresh h xs p i
      → Returns (λ _ t. Ready o ((p, i) ∷ xs) t) (job_insert p (view Lock.free xs h o))
  unfolding job_insert unlock write wrlock
  insert-view [] c d new =
      rw
        (
          set_next_lem (view Lock.write_locked [] h o) new.ne_null new.there null,
          set_prev_lem (view Lock.write_locked [] (write h p (job i new.prev null)) o) new.ne_null
              (write_same h p (job i new.prev null)) null,
        )
        (returns (record {
          holds = record {
            head = refl;
            tail = refl;
            chain = (ground arith, tt);
            distinct = (new.ne_null, refl, tt);
          };
          unlocked = refl;
          silent = refl;
        }))
  insert-view ((y, k) ∷ ys) c d new =
      let h1 = write h p (job i new.prev y) in
      let h2 = write h1 p (job i null y) in
      rw
        (
          set_next_lem (view Lock.write_locked ((y, k) ∷ ys) h o) new.ne_null new.there y,
          set_prev_lem (view Lock.write_locked ((y, k) ∷ ys) h1 o) new.ne_null
              (write_same h p (job i new.prev y)) null,
          ==_of_ne y null d.0,
          set_prev_lem (view Lock.write_locked ((y, k) ∷ ys) h2 o) {j = job k null (first ys null)}
              d.0 (ground (arith, c.0, new.new)) p,
        )
        (returns (record {
          holds = record {
            head = refl;
            tail = refl;
            chain = (
              ground (arith, new.new),
              (ground arith, Chain-frame y ys null (λ a m. ground (arith, new.new, d.1)) c.1),
            );
            distinct = (new.ne_null, new.new, d);
          };
          unlocked = refl;
          silent = refl;
        }))

module _ {s : Queue} {p : Ptr} {i : ℕ} {xs : Jobs} (is : Holds s xs)
    (unlocked : s.q_lock ≡ Lock.free) (new : Fresh s.heap xs p i) where
  -- On a queue that holds some jobs and whose lock is free, job_insert puts a fresh job in
  -- front of the others, gives the lock back and prints nothing.
  pub job_insert-cons : Returns (λ _ t. Ready s.out ((p, i) ∷ xs) t) (job_insert p s)
  job_insert-cons =
      subst (λ t. Returns (λ _ t. Ready s.out ((p, i) ∷ xs) t) (job_insert p t))
        (sym (Holds-view s xs is unlocked)) (insert-view xs is.chain is.distinct new)
