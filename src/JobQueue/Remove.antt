-- ===== src/JobQueue/Remove.antt =====
-- job_remove of pthread/job_queue.c against the list that the queue stands for.
mod Places
use unix_demos.Base.{ℕ, ◌≡◌, sym, subst, inl, inr, List, [], ◌∷◌, ◌++◌, append-nil, snoc-cases}
use unix_demos.JobQueue.Heap.{Ptr, null, Heap, Lock, Queue, Returns}
use unix_demos.JobQueue.Chain.{Jobs, view, Holds-view, Chain, Distinct, Holds}
use unix_demos.JobQueue.Ready.{Ready}
use unix_demos.JobQueue.{job_remove}
use Places.{remove_only, remove_first, remove_last, remove_inner, last_mid}

module _ (h : Heap) (p : Ptr) (i : ℕ) (o : List ℕ) where
  abbrev RemovesFrom : Jobs → Jobs → Type 0
  RemovesFrom ys zs =
      Chain h null (ys ++ (p, i) ∷ zs) null
      → Distinct (ys ++ (p, i) ∷ zs)
      → Returns (λ _ t. Ready o (ys ++ zs) t)
          (job_remove p (view Lock.free (ys ++ (p, i) ∷ zs) h o))

  remove_behind : (ys : Jobs) (y k : ℕ) (zs : Jobs) → RemovesFrom (ys ++ (y, k) ∷ []) zs
  remove_behind ys y k [] c d = rw (last_mid ys y k ((p, i) ∷ [])) (remove_last h p i o y k ys c d)
  remove_behind ys y k ((z, l) ∷ zs) c d =
      rw (last_mid ys y k ((p, i) ∷ (z, l) ∷ zs)) (remove_inner h p i o y k ys z l zs c d)

  remove_front : (zs : Jobs) → RemovesFrom [] zs
  remove_front [] c d = remove_only h p i o c d
  remove_front ((z, l) ∷ zs) c d = remove_first h p i o z l zs c d

  remove-view : (ys zs : Jobs) → RemovesFrom ys zs
  remove-view ys zs = elim (snoc-cases ys) [
    | inl e ↦ subst (λ ys. RemovesFrom ys zs) (sym e) (remove_front zs)
    | inr (ws, (y, k), e) ↦ subst (λ ys. RemovesFrom ys zs) (sym e) (remove_behind ws y k zs)
  ]

module _ {s : Queue} (p : Ptr) (i : ℕ) (ys zs : Jobs) (is : Holds s (ys ++ (p, i) ∷ zs))
    (unlocked : s.q_lock ≡ Lock.free) where
  -- On a queue that holds the jobs ys, p, zs and whose lock is free, job_remove takes p out,
  -- wherever it stands, joins what stood before and behind it, gives the lock back and prints
  -- nothing.
  pub job_remove-append : Returns (λ _ t. Ready s.out (ys ++ zs) t) (job_remove p s)
  job_remove-append =
      subst (λ t. Returns (λ _ t. Ready s.out (ys ++ zs) t) (job_remove p t))
        (sym (Holds-view s _ is unlocked)) (remove-view s.heap p i s.out ys zs is.chain is.distinct)
