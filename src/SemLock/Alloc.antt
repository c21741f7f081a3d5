-- ===== src/SemLock/Alloc.antt =====
-- `s_alloc` of IPC/sem_lock.c finds the first free name.
use unix_demos.Base.{ℕ, zero, suc, ◌+◌, ◌<◌, ◌≡◌, ◌≢◌, refl, true, false, Option, none, some, arith}
use unix_demos.SemLock.{Opened, made, exists, failed, Name, Allocated, open_loop, s_alloc}

abbrev pub named : ℕ → ℕ → Name
named pid cnt = record { pid = pid; cnt = cnt }

-- What the loop answers once a name is not taken.
abbrev pub outcome : Opened → ℕ → ℕ → Option Allocated
outcome made pid n =
    some (record {
      lock = some (record { name = named pid n; value = 1; linked = false });
      cnt = n + 1;
    })
outcome failed pid n = some (record { lock = none; cnt = n + 1 })
outcome exists pid n = none

shift : (cnt k : ℕ) → cnt + 1 + k ≡ cnt + suc k
shift cnt k = omega arith

shift_zero : (cnt : ℕ) → cnt + 0 ≡ cnt
shift_zero cnt = omega arith

module _ (sem_open : Name → Opened) (pid : ℕ) where
  -- If the first k names from the counter on are taken and the next one is not, then s_alloc,
  -- with memory to be had and given more than k rounds, makes that one, with value 1 and its
  -- name unlinked, and moves the counter past it; or, if it cannot be made, answers none and
  -- moves the counter all the same.
  pub s_alloc-outcome :
      (k rounds cnt : ℕ)
      → ((j : ℕ) → j < k → sem_open (named pid (cnt + j)) ≡ exists)
      → k < rounds
      → sem_open (named pid (cnt + k)) ≢ exists
      → s_alloc sem_open true pid rounds cnt
        ≡ outcome (sem_open (named pid (cnt + k))) pid (cnt + k)
  unfolding s_alloc open_loop
  s_alloc-outcome k zero cnt taken fuel free = absurd (omega arith)
  s_alloc-outcome zero (suc rounds) cnt taken fuel free =
      rw (shift_zero cnt) (here (sem_open (named pid cnt)) refl (rw (shift_zero cnt) at free))
    where
      here :
          (r : Opened)
          → sem_open (named pid cnt) ≡ r
          → sem_open (named pid cnt) ≢ exists
          → s_alloc sem_open true pid (suc rounds) cnt ≡ outcome (sem_open (named pid cnt)) pid cnt
      here made e f = rw (e, open_loop)
      here exists e f = absurd (f e)
      here failed e f = rw (e, open_loop)
  s_alloc-outcome (suc k) (suc rounds) cnt taken fuel free =
      let now : sem_open (named pid cnt) ≡ exists =
        rw (shift_zero cnt) at (taken 0 (omega arith)) in
      rw (now, open_loop, ← shift cnt k)
        (s_alloc-outcome k rounds (cnt + 1) (λ j h. rw (shift cnt j) (taken (suc j) (omega arith)))
          (omega arith) (rw (← shift cnt k) at free))
