-- ===== src/Foo.antt =====
-- pthread/pthread_mutex.c: an object shared under a reference count that a mutex guards, and the two
-- threads that hold and release two such objects. Every critical section is one step, and a thread
-- is the sequence of its calls; what the calls print is left out.
pub mod Interleaving
pub mod Counting
pub mod Threads
use unix_demos.Base.{
  ℕ, zero, suc, ◌+◌, ◌-◌, ◌%◌, ◌^◌, Bool, true, false, not, Option, none, some, List, [], ◌∷◌, ◌++◌,
  ◌==◌, if◌then◌else◌,
}

-- `struct foo`; the count is the bit pattern of an `int`.
pub record Foo : Type 0 where
  pub f_count : ℕ
  pub f_id : ℕ

-- A shared object: in memory, or given back by `free`.
pub data Cell : Type 0 where
  live : Foo → Cell
  freed : Cell

-- `malloc` succeeds or not; `mutex_init` is the answer of `pthread_mutex_init`.
pub foo_alloc : (malloc : Bool) (mutex_init : ℕ) → ℕ → Option Foo
foo_alloc false mutex_init id = none
foo_alloc true mutex_init id =
    if not (mutex_init == 0) then none else some (record { f_count = 1; f_id = id })

-- The answer `none` is an access to memory that was given back.
pub foo_hold : Cell → Option Cell
foo_hold freed = none
foo_hold (live fp) = some (live (record fp { f_count = (fp.f_count + 1) % 2 ^ 32 }))

pub foo_rele : Cell → Option Cell
foo_rele freed = none
foo_rele (live fp) =
    let count = (fp.f_count + 2 ^ 32 - 1) % 2 ^ 32 in
    if count == 0 then some freed else some (live (record fp { f_count = count }))

pub data Op : Type 0 where
  hold rele : Op

pub call : Op → Cell → Option Cell
call hold c = foo_hold c
call rele c = foo_rele c

pub run : List Op → Cell → Option Cell
run [] c = some c
run (op ∷ ops) c = elim (call op c) [ none ↦ none | some c' ↦ run ops c' ]

-- The two objects of the program, `foo_val1` and `foo_val2`.
pub data Val : Type 0 where
  foo_val1 foo_val2 : Val

abbrev pub Call : Type 0
Call = Val × Op

pub record Store : Type 0 where
  pub at1 : Cell
  pub at2 : Cell

pub step : Call → Store → Option Store
step (foo_val1, op) s = elim (call op s.at1) [ none ↦ none | some c ↦ some (record s { at1 = c }) ]
step (foo_val2, op) s = elim (call op s.at2) [ none ↦ none | some c ↦ some (record s { at2 = c }) ]

pub run_all : List Call → Store → Option Store
run_all [] s = some s
run_all (c ∷ cs) s = elim (step c s) [ none ↦ none | some s' ↦ run_all cs s' ]

-- `for (int i=0; i<n; i++)` over one call.
pub times {ℓ} : {A : Type ℓ} → ℕ → A → List A
times zero a = []
times (suc n) a = a ∷ times n a

pub thr_fn1 : List Call
thr_fn1 =
    times 20 (foo_val1, hold)
    ++ (times 22 (foo_val2, hold) ++ (times 20 (foo_val1, rele) ++ times 22 (foo_val2, rele)))

pub thr_fn2 : List Call
thr_fn2 =
    times 20 (foo_val1, hold)
    ++ (times 22 (foo_val2, hold) ++ (times 21 (foo_val1, rele) ++ times 23 (foo_val2, rele)))
