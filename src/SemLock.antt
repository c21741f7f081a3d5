-- ===== src/SemLock.antt =====
-- IPC/sem_lock.c: a lock made of a named POSIX semaphore. The kernel's semaphores are a parameter:
-- which names can be opened, with a number for each.
pub mod Alloc
pub mod Counter
use unix_demos.Base.{
  ℕ, zero, suc, ◌+◌, ◌-◌, Bool, true, false, Option, none, some, ◌==◌, if◌then◌else◌,
}

-- `sem_open` with O_CREAT | O_EXCL: it makes the semaphore, finds the name taken (EEXIST), or fails
-- for another reason.
pub data Opened : Type 0 where
  made exists failed : Opened

-- A name, "pid.cnt".
pub record Name : Type 0 where
  pub pid : ℕ
  pub cnt : ℕ

-- `struct slock`: the semaphore that `semp` leads to is its value, and whether a name leads to it.
pub record Slock : Type 0 where
  pub name : Name
  pub value : ℕ
  pub linked : Bool

-- The result of a call with the static counter `cnt` that it leaves.
pub record Allocated : Type 0 where
  pub lock : Option Slock
  pub cnt : ℕ

pub data Loop : Type 0 where
  opened : (at next : ℕ) → Loop
  refused : (next : ℕ) → Loop
  out_of_fuel : Loop

-- The static `cnt` is an `int` in the source, here a number without bound, and the name is here the pair
-- of the two numbers, where `snprintf` cuts "/%ld.%d" off at the 14 bytes of `name`.
-- The `do … while` of `s_alloc` from the counter on: `cnt++` names the next semaphore to try.
unfoldable pub open_loop : (sem_open : Name → Opened) (pid : ℕ) → ℕ → ℕ → Loop
open_loop sem_open pid zero cnt = out_of_fuel
open_loop sem_open pid (suc rounds) cnt = elim (sem_open (record { pid = pid; cnt = cnt })) [
  | made ↦ opened cnt (cnt + 1)
  | exists ↦ open_loop sem_open pid rounds (cnt + 1)
  | failed ↦ refused (cnt + 1)
]

-- `sem_unlink`: the name leads to the semaphore no more, which lives on.
sem_unlink : Slock → Slock
sem_unlink sp = record sp { linked = false }

finish : ℕ → Loop → Option Allocated
finish pid (opened at next) = some (record {
  lock =
      some
        (sem_unlink (record { name = record { pid = pid; cnt = at }; value = 1; linked = true }));
  cnt = next;
})
finish pid (refused next) = some (record { lock = none; cnt = next })
finish pid out_of_fuel = none

-- The answer `none` means that the rounds ran out.
unfoldable pub s_alloc :
    (sem_open : Name → Opened) (malloc : Bool) (pid rounds : ℕ) → (cnt : ℕ) → Option Allocated
unfolding finish sem_unlink
s_alloc sem_open false pid rounds cnt = some (record { lock = none; cnt = cnt })
s_alloc sem_open true pid rounds cnt = finish pid (open_loop sem_open pid rounds cnt)

-- `sem_wait`, where `none` means that the caller blocks.
unfoldable pub s_lock : ℕ → Option ℕ
s_lock zero = none
s_lock (suc v) = some v

-- `sem_trywait`: the answer 0 with the semaphore taken, or -1 (here `false`) with nothing changed.
unfoldable pub s_trylock : ℕ → Bool × ℕ
s_trylock zero = (false, zero)
s_trylock (suc v) = (true, v)

unfoldable pub s_unlock : ℕ → ℕ
s_unlock v = v + 1
