-- ===== src/SemLock/Counter.antt =====
-- IPC/semlock_test.c: two threads that count in one variable under the lock of IPC/sem_lock.c. A
-- read and a write of the variable are steps of their own.
pub mod Exclusion
use unix_demos.Base.{
  ◌≡◌, ℕ, zero, suc, ◌+◌, ◌-◌, ◌%◌, ◌^◌, Bool, true, false, Option, none, some, if◌then◌else◌, ltb,
}
use unix_demos.SemLock.{s_lock, s_unlock}

-- What the threads share: the semaphore's value, and `cnt`, the bit pattern of an `int`.
pub record Shared : Type 0 where
  pub sem : ℕ
  pub cnt : ℕ

-- Where a thread stands in its loop, with `i` rounds done.
pub data Pc : Type 0 where
  test : (i : ℕ) → Pc
  locking : (i : ℕ) → Pc
  reading : (i : ℕ) → Pc
  writing : (i v : ℕ) → Pc
  unlocking : (i : ℕ) → Pc
  returned : Pc

-- One step of a thread with `n` rounds to make; `none` where it blocks or has returned.
unfoldable pub thr_fn : (n : ℕ) → Pc → Shared → Option (Pc × Shared)
thr_fn n (test i) m = if ltb i n then some (locking i, m) else some (returned, m)
thr_fn n (locking i) m = elim (s_lock m.sem) [
  | none ↦ none
  | some v ↦ some (reading i, record m { sem = v })
]
thr_fn n (reading i) m = some (writing i m.cnt, m)
thr_fn n (writing i v) m = some (unlocking i, record m { cnt = (v + 1) % 2 ^ 32 })
thr_fn n (unlocking i) m = some (test (i + 1), record m { sem = s_unlock m.sem })
thr_fn n returned m = none

pub record System : Type 0 where
  pub mem : Shared
  pub pc1 : Pc
  pub pc2 : Pc

-- `s_alloc` gives the semaphore the value 1; `cnt` is static.
unfoldable pub start : System
start = record { mem = record { sem = 1; cnt = 0 }; pc1 = test 0; pc2 = test 0 }

unfoldable pub step1 : ℕ → System → Option System
step1 n s = elim (thr_fn n s.pc1 s.mem) [
  | none ↦ none
  | some (p, m) ↦ some (record s { mem = m; pc1 = p })
]

unfoldable pub step2 : ℕ → System → Option System
step2 n s = elim (thr_fn n s.pc2 s.mem) [
  | none ↦ none
  | some (p, m) ↦ some (record s { mem = m; pc2 = p })
]

pub data Reach (n : ℕ) : System → Type 0 where
  here : Reach n start
  first : {s t : System} → Reach n s → step1 n s ≡ some t → Reach n t
  second : {s t : System} → Reach n s → step2 n s ≡ some t → Reach n t

abbrev pub rounds : ℕ
rounds = 1_000_000
