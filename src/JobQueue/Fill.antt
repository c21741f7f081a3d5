-- ===== src/JobQueue/Fill.antt =====
-- The first loop of `thr_fn1` in pthread/job_queue.c: it links in job after job, at the head and at
-- the tail by turns.
use unix_demos.Base.{
  ℕ, zero, suc, ◌+◌, ◌%◌, ◌≤◌, ◌<◌, ◌≡◌, ◌≢◌, refl, sym, append-nil, append_assoc, Bool-cases, inl,
  inr, true, false, ◌||◌, [], ◌∷◌, ◌++◌, arith, ◌==◌, ==_iff, if◌then◌else◌,
}
use unix_demos.JobQueue.Heap.{
  Ptr, null, job, Lock, Queue, Cmd, write, Returns, returns, Returns-and_then, set_id_lem,
}
use unix_demos.JobQueue.Chain.{Jobs, has, has-append, Holds, Holds-print, copies, Chain-frame}
use unix_demos.JobQueue.Ready.{Ready, Fresh}
use unix_demos.JobQueue.Insert.{job_insert-cons}
use unix_demos.JobQueue.Append.{job_append-snoc}
use unix_demos.JobQueue.{new_job, job_insert, job_append, inserting, fill}

-- A fresh block of memory, made a job, leaves the queue alone.
new_job-Fresh :
    {s : Queue} {xs : Jobs} (p : Ptr) (i : ℕ)
    → Holds s xs
    → s.q_lock ≡ Lock.free
    → p ≢ null
    → has p xs ≡ false
    → Returns (λ _ t. Ready s.out xs t × Fresh t.heap xs p i) (new_job p i s)
unfolding new_job write
new_job-Fresh {s} {xs} p i is unlocked nz out =
    rw
      (set_id_lem (record s { heap = write s.heap p (job 0 null null) }) {j = job 0 null null} nz
        (ground arith) i)
      (returns (
        record {
          holds = record {
            head = is.head;
            tail = is.tail;
            chain = Chain-frame null xs null (λ a m. ground arith) is.chain;
            distinct = is.distinct;
          };
          unlocked = unlocked;
          silent = refl;
        },
        record { ne_null = nz; new = out; prev = null; next = null; there = ground arith },
      ))

pub add_shift : (i n : ℕ) → i + suc n ≡ i + 1 + n
add_shift i n = omega arith

pub add_none : (i : ℕ) → i + 0 ≡ i
add_none i = omega arith

module _ (malloc : ℕ → Ptr) where
  -- The jobs in the queue after `n` rounds of the first loop from round `i` on.
  pub filled : ℕ → ℕ → Jobs → Jobs
  filled zero i xs = xs
  filled (suc n) i xs =
      filled n (i + 1) (if i % 2 == 1 then (malloc i, i) ∷ xs else xs ++ (malloc i, i) ∷ [])

  -- `malloc` gives no null and no address twice.
  pub record Allocates : Type 0 where
    pub ne_null : (j : ℕ) → malloc j ≢ null
    pub once : (j k : ℕ) → malloc j ≡ malloc k → j ≡ k

  -- The jobs of the rounds from `lo` up to `hi`, and no others.
  pub record Covers (lo hi : ℕ) (xs : Jobs) : Type 0 where
    pub only : (a : Ptr) → has a xs ≡ true → (j : ℕ) × (lo ≤ j) × (j < hi) × (a ≡ malloc j)
    pub each : (j : ℕ) → lo ≤ j → j < hi → has (malloc j) xs ≡ true

  module _ (ok : Allocates) where
    link : (i : ℕ) → Cmd (Unit {0})
    link i = if i % 2 == 1 then job_insert (malloc i) else job_append (malloc i)

    abbrev linked : ℕ → Jobs → Jobs
    linked i xs = if i % 2 == 1 then (malloc i, i) ∷ xs else xs ++ (malloc i, i) ∷ []

    link-Ready :
        {s : Queue} {xs : Jobs} (i : ℕ)
        → Holds s xs
        → s.q_lock ≡ Lock.free
        → Fresh s.heap xs (malloc i) i
        → Returns (λ _ t. Ready s.out (linked i xs) t) (link i s)
    unfolding link
    link-Ready i is unlocked new = elim (Bool-cases (i % 2 == 1)) [
      | inl odd ↦ rw odd (job_insert-cons is unlocked new)
      | inr even ↦ rw even (job_append-snoc is unlocked new)
    ]

    has-linked : (a : Ptr) (i : ℕ) (xs : Jobs) → has a (linked i xs) ≡ (a == malloc i || has a xs)
    has-linked a i xs = ground (arith, has-append a xs ((malloc i, i) ∷ []))

    Covers-linked :
        (lo i : ℕ) (xs : Jobs) → lo ≤ i → Covers lo i xs → Covers lo (i + 1) (linked i xs)
    Covers-linked lo i xs le cov = record {
      only = λ a m. elim (Bool-cases (a == malloc i)) [
        | inl e ↦ (i, le, omega arith, (==_iff a (malloc i)).0 e)
        | inr e ↦
            let (j, l, h, e') = cov.only a (ground (arith, has-linked a i xs)) in
            (j, l, omega arith, e')
      ];
      each = λ j l h. elim (Bool-cases (j == i)) [
        | inl e ↦ ground (arith, has-linked (malloc j) i xs)
        | inr e ↦ ground (arith, has-linked (malloc j) i xs, cov.each j)
      ];
    }

    not-has_next : {i : ℕ} {xs : Jobs} → Covers 0 i xs → has (malloc i) xs ≡ false
    not-has_next {i} {xs} cov = elim (Bool-cases (has (malloc i) xs)) [
      | inl e ↦ absurd (let (j, l, h, e') = cov.only (malloc i) e in omega (arith, ok.once i j e'))
      | inr e ↦ e
    ]

    pub fill-Ready :
        (n i : ℕ) {s : Queue} {xs : Jobs}
        → Holds s xs
        → s.q_lock ≡ Lock.free
        → Covers 0 i xs
        → Returns
            (λ _ t.
              Ready (s.out ++ copies n inserting) (filled n i xs) t
              × Covers 0 (i + n) (filled n i xs))
            (fill malloc n i s)
    unfolding fill filled link copies
    fill-Ready zero i {s} is unlocked cov = returns (
      record { holds = is; unlocked = unlocked; silent = sym (append-nil s.out) },
      (rw (add_none i) cov),
    )
    fill-Ready (suc n) i {s} is unlocked cov =
        Returns-and_then
          (new_job-Fresh (malloc i) i (Holds-print (s.out ++ inserting) is) unlocked (ok.ne_null i)
            (not-has_next cov))
          λ _ t (ready, fresh).
            Returns-and_then (link-Ready i ready.holds ready.unlocked fresh) λ _ u ready'.
              rw
                (
                  ← append_assoc s.out inserting (copies n inserting),
                  ← ready.silent,
                  ← ready'.silent,
                  (add_shift i n),
                )
                (fill-Ready n (i + 1) ready'.holds ready'.unlocked
                  (Covers-linked 0 i _ (omega arith) cov))
