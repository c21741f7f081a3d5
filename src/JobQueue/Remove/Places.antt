-- ===== src/JobQueue/Remove/Places.antt =====
-- job_remove of pthread/job_queue.c against the list that the queue stands for: one lemma for each
-- place of the job, at the head alone, at the head, at the tail, between two others.
use unix_demos.Base.{
  ℕ, ◌≡◌, ◌≢◌, refl, sym, true, false, some, List, [], ◌∷◌, ◌++◌, arith, ◌==◌, ==_refl,
}
use unix_demos.JobQueue.Heap.{
  Ptr, null, job, Heap, Lock, write, Returns, returns, wrlock, load_lem, set_prev_lem, set_next_lem,
  unlock,
}
use unix_demos.JobQueue.Chain.{
  Jobs, queue, has, has-append, first-append, first, last, Chain, Distinct, Chain-frame,
  Chain-split, Chain-append, Distinct-split, Distinct-apart, not-has_left, last-append, last-ne,
  Distinct-remove,
}
use unix_demos.JobQueue.Ready.{Ready}
use unix_demos.JobQueue.{job_remove}

-- The head of a list without `p` is not `p`.
first-ne :
    (p y k : ℕ) (ys zs : Jobs)
    → has p (ys ++ (y, k) ∷ []) ≡ false
    → (p == first ((ys ++ (y, k) ∷ []) ++ zs) null) ≡ false
first-ne p y k [] zs out = ground arith
first-ne p y k ((z, l) ∷ ys) zs out = ground arith

first_mid :
    (ys : Jobs) (y k : ℕ) (zs ws : Jobs)
    → first ((ys ++ (y, k) ∷ []) ++ zs) null ≡ first ((ys ++ (y, k) ∷ []) ++ ws) null
first_mid ys y k zs ws = simp first-append

pub last_mid : (ys : Jobs) (y k : ℕ) (zs : Jobs) → last null ((ys ++ (y, k) ∷ []) ++ zs) ≡ last y zs
last_mid ys y k zs = simp last-append

-- A chain from what stands before a job, the job's links, and what stands behind it.
joined :
    (h : Heap) (ys : Jobs) (y k : ℕ) (zs : Jobs)
    → Chain h null ys y
    → h y ≡ some (job k (last null ys) (first zs null))
    → Chain h y zs null
    → Chain h null ((ys ++ (y, k) ∷ []) ++ zs) null
joined h ys y k zs left at_y right =
    Chain-append h null (ys ++ (y, k) ∷ []) zs null
      (Chain-append h null ys ((y, k) ∷ []) (first zs null) left (at_y, tt))
      (rw (last-append null ys ((y, k) ∷ [])) right)

module _ (h : Heap) (p i : ℕ) (o : List ℕ) where
  pub remove_only :
      Chain h null ((p, i) ∷ []) null
      → Distinct ((p, i) ∷ [])
      → Returns (λ _ t. Ready o [] t) (job_remove p (queue Lock.free p p h o))
  unfolding job_remove unlock wrlock
  remove_only c d =
      rw (==_refl p, load_lem (queue Lock.write_locked p p h o) d.0 c.0, ==_refl p)
        (returns (record {
          holds = record { head = refl; tail = refl; chain = tt; distinct = tt };
          unlocked = refl;
          silent = refl;
        }))

  pub remove_first :
      (z k : ℕ) (zs : Jobs)
      → Chain h null ((p, i) ∷ (z, k) ∷ zs) null
      → Distinct ((p, i) ∷ (z, k) ∷ zs)
      → Returns (λ _ t. Ready o ((z, k) ∷ zs) t) (job_remove p (queue Lock.free p (last z zs) h o))
  unfolding job_remove unlock wrlock write
  remove_first z k zs c d =
      rw
        (
          ==_refl p,
          load_lem (queue Lock.write_locked p (last z zs) h o) d.0 c.0,
          last-ne p z k zs d.1,
          set_prev_lem (queue Lock.write_locked z (last z zs) h o) d.2.0 c.1.0 null,
        )
        (returns (record {
          holds = record {
            head = refl;
            tail = refl;
            chain = (ground arith, Chain-frame z zs null (λ a m. ground (arith, d.2.1)) c.1.1);
            distinct = d.2;
          };
          unlocked = refl;
          silent = refl;
        }))

  module _ (y k : ℕ) (ys zs : Jobs) (c : Chain h null ((ys ++ (y, k) ∷ []) ++ (p, i) ∷ zs) null)
      (d : Distinct ((ys ++ (y, k) ∷ []) ++ (p, i) ∷ zs)) where
    -- What the neighbours of the job hold.
    record Around : Type 0 where
      at_p : h p ≡ some (job i y (first zs null))
      at_y : h y ≡ some (job k (last null ys) p)
      left : Chain h null ys y
      right : Chain h p zs null
      p_new : has p (ys ++ (y, k) ∷ []) ≡ false
      y_new : has y ys ≡ false
      y_ne : y ≢ null
      p_ne : p ≢ null
      p_after : has p zs ≡ false
      apart : (b : Ptr) → has b (ys ++ (y, k) ∷ []) ≡ true → has b zs ≡ false
      distinct : Distinct ((ys ++ (y, k) ∷ []) ++ zs)

    around : Around
    around =
        let outer = Chain-split h null (ys ++ (y, k) ∷ []) ((p, i) ∷ zs) null c in
        let inner = Chain-split h null ys ((y, k) ∷ []) p outer.0 in
        let rest = Distinct-remove (ys ++ (y, k) ∷ []) p i zs d in
        let parts = Distinct-split (ys ++ (y, k) ∷ []) ((p, i) ∷ zs) d in
        record {
          at_p = rw (last-append null ys ((y, k) ∷ [])) at outer.1.0;
          at_y = inner.1.0;
          left = inner.0;
          right = outer.1.1;
          p_new = not-has_left (ys ++ (y, k) ∷ []) p i zs d;
          y_new = not-has_left ys y k [] parts.0;
          y_ne = (Distinct-split ys ((y, k) ∷ []) parts.0).1.0;
          p_ne = parts.1.0;
          p_after = parts.1.1;
          apart = Distinct-apart (ys ++ (y, k) ∷ []) zs rest;
          distinct = rest;
        }

  pub remove_last :
      (y k : ℕ) (ys : Jobs)
      → Chain h null ((ys ++ (y, k) ∷ []) ++ (p, i) ∷ []) null
      → Distinct ((ys ++ (y, k) ∷ []) ++ (p, i) ∷ [])
      → Returns
          (λ _ t. Ready o ((ys ++ (y, k) ∷ []) ++ []) t)
          (job_remove p (queue Lock.free (first ((ys ++ (y, k) ∷ []) ++ (p, i) ∷ []) null) p h o))
  unfolding job_remove unlock wrlock write
  remove_last y k ys c d =
      let hd = first ((ys ++ (y, k) ∷ []) ++ (p, i) ∷ []) null in
      let head_ne = first-ne p y k ys ((p, i) ∷ []) a.p_new in
      rw
        (
          head_ne,
          ==_refl p,
          load_lem (queue Lock.write_locked hd p h o) a.p_ne a.at_p,
          head_ne,
          set_next_lem (queue Lock.write_locked hd y h o) a.y_ne a.at_y null,
        )
        (returns (record {
          holds = record {
            head = first_mid ys y k ((p, i) ∷ []) [];
            tail = sym (last_mid ys y k []);
            chain =
                joined (write h y (job k (last null ys) null)) ys y k []
                  (Chain-frame null ys y (λ b m. ground (arith, a.y_new)) a.left) (ground arith) tt;
            distinct = a.distinct;
          };
          unlocked = refl;
          silent = refl;
        }))
    where
      a : Around y k ys [] c d
      a = around y k ys [] c d

  pub remove_inner :
      (y k : ℕ) (ys : Jobs) (z l : ℕ) (zs : Jobs)
      → Chain h null ((ys ++ (y, k) ∷ []) ++ (p, i) ∷ (z, l) ∷ zs) null
      → Distinct ((ys ++ (y, k) ∷ []) ++ (p, i) ∷ (z, l) ∷ zs)
      → Returns
          (λ _ t. Ready o ((ys ++ (y, k) ∷ []) ++ (z, l) ∷ zs) t)
          (job_remove p (
            queue Lock.free
              (first ((ys ++ (y, k) ∷ []) ++ (p, i) ∷ (z, l) ∷ zs) null)
              (last z zs)
              h
              o))
  unfolding job_remove unlock wrlock write
  remove_inner y k ys z l zs c d =
      let hd = first ((ys ++ (y, k) ∷ []) ++ (p, i) ∷ (z, l) ∷ zs) null in
      let h1 = write h y (job k (last null ys) z) in
      let tail_ne : (p == last z zs) ≡ false = ground (arith, last-ne p z l zs a.p_after) in
      let p_ne : (p == y) ≡ false = ground (arith, has-append p ys ((y, k) ∷ []), a.p_new) in
      let y_after : has y ((z, l) ∷ zs) ≡ false =
        a.apart y (ground (arith, has-append y ys ((y, k) ∷ []))) in
      let after = (Distinct-split (ys ++ (y, k) ∷ []) ((p, i) ∷ (z, l) ∷ zs) d).1.2 in
      let z_before : has z ys ≡ false = ground (arith, a.apart z, has-append z ys ((y, k) ∷ [])) in
      rw
        (
          first-ne p y k ys ((p, i) ∷ (z, l) ∷ zs) a.p_new,
          tail_ne,
          load_lem (queue Lock.write_locked hd (last z zs) h o) a.p_ne a.at_p,
          set_next_lem (queue Lock.write_locked hd (last z zs) h o) a.y_ne a.at_y z,
          load_lem (queue Lock.write_locked hd (last z zs) h1 o) {j = job i y z} a.p_ne
              (ground (arith, a.at_p)),
          set_prev_lem (queue Lock.write_locked hd (last z zs) h1 o) {j = job l p (first zs null)}
              after.0 (ground (arith, a.right.0)) y,
        )
        (returns (record {
          holds = record {
            head = first_mid ys y k ((p, i) ∷ (z, l) ∷ zs) ((z, l) ∷ zs);
            tail = sym (last_mid ys y k ((z, l) ∷ zs));
            chain =
                joined (write h1 z (job l y (first zs null))) ys y k ((z, l) ∷ zs)
                  (Chain-frame null ys y (λ b m. ground (arith, a.y_new)) a.left) (ground arith)
                  (ground arith, Chain-frame z zs null (λ b m. ground (arith, after.1)) a.right.1);
            distinct = a.distinct;
          };
          unlocked = refl;
          silent = refl;
        }))
    where
      a : Around y k ys ((z, l) ∷ zs) c d
      a = around y k ys ((z, l) ∷ zs) c d
