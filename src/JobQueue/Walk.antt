-- ===== src/JobQueue/Walk.antt =====
-- The walks over the jobs in pthread/job_queue.c: job_find, traverse_jobs, and the test of thr_fn2.
use unix_demos.Base.{
  ℕ, codes, num, zero, suc, ◌<◌, ◌≤◌, ◌≡◌, ◌↔◌, refl, sym, ap, subst, Bool-cases, inl, inr, false,
  List, [], ◌∷◌, ◌++◌, arith, ◌==◌, ==_of_ne, ==_refl, leb, if◌then◌else◌, length, append-nil,
  append_assoc,
}
use unix_demos.JobQueue.Heap.{Ptr, null, Heap, Lock, Queue, ok, exit, load_lem, rdlock, unlock}
use unix_demos.JobQueue.Chain.{Jobs, view, Holds-view, first, last, Chain, Distinct, Holds, last-ne}
use unix_demos.JobQueue.{find_loop, job_find, traverse_loop, traverse_jobs, thr_fn2_test}

-- The first address with the id, or null.
pub find_id : ℕ → Jobs → Ptr
find_id id [] = null
find_id id ((p, i) ∷ xs) = if i == id then p else find_id id xs

abbrev pub ids : Jobs → List ℕ
ids [] = []
ids ((p, i) ∷ xs) = i ∷ ids xs

find_loop-find_id :
    (k id : ℕ) (s : Queue) (prev : Ptr) (xs : Jobs)
    → length xs < k
    → Chain s.heap prev xs null
    → Distinct xs
    → find_loop k id (first xs null) s ≡ ok (find_id id xs) s
unfolding find_loop find_id
find_loop-find_id zero id s prev xs fuel c d = absurd (omega arith)
find_loop-find_id (suc k) id s prev [] fuel c d = refl
find_loop-find_id (suc k) id s prev ((p, i) ∷ xs) fuel c d =
    rw (==_of_ne p null d.0, load_lem s d.0 c.0)
      (elim (Bool-cases (i == id)) [
        | inl hit ↦ rw hit
        | inr miss ↦ rw miss (find_loop-find_id k id s p xs (omega arith) c.1 d.2)
      ])

-- What is printed for each job: a space and its id.
unfoldable pub listing : List ℕ → List ℕ
listing [] = []
listing (i ∷ is) = codes " " ++ (num i ++ listing is)

-- All that traverse_jobs prints.
abbrev pub traversal : List ℕ → List ℕ
traversal is = codes "delay before traversing\n" ++ (codes "Queue:" ++ (listing is ++ codes "\n"))

traverse_loop-ids :
    (k : ℕ) (s : Queue) (prev : Ptr) (xs : Jobs)
    → length xs < k
    → Chain s.heap prev xs null
    → Distinct xs
    → traverse_loop k (first xs null) s ≡ ok tt (record s { out = s.out ++ listing (ids xs) })
unfolding traverse_loop listing
traverse_loop-ids zero s prev xs fuel c d = absurd (omega arith)
traverse_loop-ids (suc k) s prev [] fuel c d = rw (append-nil s.out)
traverse_loop-ids (suc k) s prev ((p, i) ∷ xs) fuel c d =
    rw
      (
        ==_of_ne p null d.0,
        load_lem s d.0 c.0,
        traverse_loop-ids k (record s { out = s.out ++ (codes " " ++ num i) }) p xs (omega arith)
            c.1 d.2,
      )
      (rw (append_assoc s.out (codes " " ++ num i) (listing (ids xs))))

ends-length : (xs : Jobs) → Distinct xs → (first xs null == last null xs) ≡ leb (length xs) 1
ends-length [] d = refl
ends-length ((p, i) ∷ []) d = ==_refl p
ends-length ((p, i) ∷ (q, k) ∷ xs) d = ground (arith, last-ne p q k xs d.1)

module _ (xs : Jobs) (h : Heap) (o : List ℕ) (c : Chain h null xs null) (d : Distinct xs) where
  find-view :
      (rounds err id : ℕ)
      → length xs < rounds
      → job_find rounds err id (view Lock.free xs h o)
        ≡ ok (if err == 0 then find_id id xs else null) (view Lock.free xs h o)
  unfolding job_find rdlock unlock
  find-view rounds err id fuel = elim (Bool-cases (err == 0)) [
    | inl e ↦ rw (e, find_loop-find_id rounds id (view Lock.read_locked xs h o) null xs fuel c d)
    | inr e ↦ rw e
  ]

  joined :
      (o list : List ℕ)
      → ((((o ++ codes "delay before traversing\n") ++ codes "Queue:") ++ list) ++ codes "\n")
        ≡ o ++ (codes "delay before traversing\n" ++ (codes "Queue:" ++ (list ++ codes "\n")))
  joined o list = simp append_assoc

  traverse-view :
      (rounds err : ℕ)
      → length xs < rounds
      → traverse_jobs rounds err (view Lock.free xs h o) ≡ (
          if err == 0
          then ok tt (view Lock.free xs h (o ++ traversal (ids xs)))
          else exit 255 (view Lock.free xs h o))
  unfolding traverse_jobs rdlock unlock
  traverse-view rounds err fuel = elim (Bool-cases (err == 0)) [
    | inl e ↦
        let before = (o ++ codes "delay before traversing\n") ++ codes "Queue:" in
        rw (e, traverse_loop-ids rounds (view Lock.read_locked xs h before) null xs fuel c d)
          (ap (λ text. ok tt (view Lock.free xs h text)) (joined o (listing (ids xs))))
    | inr e ↦ rw e
  ]

module _ {s : Queue} {xs : Jobs} (is : Holds s xs) (unlocked : s.q_lock ≡ Lock.free) where
  -- On a queue that holds some jobs and whose lock is free, with more rounds than jobs, job_find
  -- answers the first job with the id, or null where there is none or where the lock is refused,
  -- and changes nothing.
  pub job_find-find_id :
      (rounds err id : ℕ)
      → length xs < rounds
      → job_find rounds err id s ≡ ok (if err == 0 then find_id id xs else null) s
  job_find-find_id rounds err id fuel =
      subst (λ t. job_find rounds err id t ≡ ok (if err == 0 then find_id id xs else null) t)
        (sym (Holds-view s xs is unlocked))
        (find-view xs s.heap s.out is.chain is.distinct rounds err id fuel)

  -- On a queue that holds some jobs and whose lock is free, with more rounds than jobs,
  -- traverse_jobs prints its two lines with the ids in order and changes nothing else; it exits where the lock is
  -- refused.
  pub traverse_jobs-ids :
      (rounds err : ℕ)
      → length xs < rounds
      → traverse_jobs rounds err s
        ≡ (if err == 0 then ok tt (record s { out = s.out ++ traversal (ids xs) }) else exit 255 s)
  traverse_jobs-ids rounds err fuel =
      subst
        (λ t. traverse_jobs rounds err t ≡ (
          if err == 0 then ok tt (record t { out = t.out ++ traversal (ids xs) }) else exit 255 t))
        (sym (Holds-view s xs is unlocked))
        (traverse-view xs s.heap s.out is.chain is.distinct rounds err fuel)

  -- The loop of thr_fn2 ends exactly when at most one job is left.
  pub thr_fn2_test-length : (thr_fn2_test s ≡ false) ↔ (length xs ≤ 1)
  unfolding thr_fn2_test
  thr_fn2_test-length = rw (is.head, is.tail, ends-length xs is.distinct) (ground arith)
