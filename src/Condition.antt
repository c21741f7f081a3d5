-- ===== src/Condition.antt =====
-- pthread/condition_signal.c: one thread waits under a condition variable for the message that another one
-- leaves. Each call is a step; a wait may also end without a signal. malloc is taken to succeed.
pub mod Places
pub mod Wakeup
use unix_demos.Base.{codes, ℕ, Bool, true, false, Option, none, some, List, [], ◌∷◌, ◌++◌}
use unix_demos.Os.{Bytes}

-- Where `process_task` stands: `waiting` inside the wait, `relocking` where the wait takes the mutex again.
pub data Consumer : Type 0 where
  locking testing waiting relocking printing unlocking returned : Consumer

-- Where `enqueue_msg` stands.
pub data Producer : Type 0 where
  locking storing unlocking signalling returned : Producer

-- `qlock` (whether it is held), `tp` with the message that it leads to, and what is printed.
pub record System : Type 0 where
  pub qlock : Bool
  pub tp : Option Bytes
  pub out : List Bytes
  pub consumer : Consumer
  pub producer : Producer

-- "Hello, there"
abbrev pub msg : Bytes
msg = b'H' ∷ b'e' ∷ b'l' ∷ b'l' ∷ b'o' ∷ b',' ∷ b' ' ∷ b't' ∷ b'h' ∷ b'e' ∷ b'r' ∷ b'e' ∷ []

abbrev pub start : System
start = record {
  qlock = false;
  tp = none;
  out = [];
  consumer = Consumer.locking;
  producer = Producer.locking;
}

-- `printf("Task message: %s\n", tp -> msg)`
abbrev pub task_line : Bytes → Bytes
task_line m = codes "Task message: " ++ (m ++ codes "\n")

-- A step that takes the mutex is none where it is held.
abbrev pub taking : Bool → System → Option System
taking true t = none
taking false t = some (record t { qlock = true })

-- A step of `process_task` from where it stands; `none` where it blocks, has returned or reads NULL.
unfoldable pub consume : Consumer → System → Option System
consume Consumer.locking s = taking s.qlock (record s { consumer = testing })
consume testing s = elim s.tp [
  | none ↦ some (record s { qlock = false; consumer = waiting })
  | some m ↦ some (record s { consumer = printing })
]
consume waiting s = none
consume relocking s = taking s.qlock (record s { consumer = testing })
consume printing s = elim s.tp [
  | none ↦ none
  | some m ↦ some (record s { out = s.out ++ task_line m ∷ []; consumer = Consumer.unlocking })
]
consume Consumer.unlocking s = some (record s { qlock = false; consumer = Consumer.returned })
consume Consumer.returned s = none

unfoldable pub process_task : System → Option System
unfolding consume
process_task s = consume s.consumer s

-- A signal, or nothing, ends the wait.
unfoldable pub woken : Consumer → Consumer
woken waiting = relocking
woken c = c

-- A step of `enqueue_msg` from where it stands.
unfoldable pub produce : Producer → System → Option System
unfolding woken
produce Producer.locking s = taking s.qlock (record s { producer = storing })
produce storing s = some (record s { tp = some msg; producer = Producer.unlocking })
produce Producer.unlocking s = some (record s { qlock = false; producer = signalling })
produce signalling s = some (record s { consumer = woken s.consumer; producer = Producer.returned })
produce Producer.returned s = none

unfoldable pub enqueue_msg : System → Option System
unfolding produce
enqueue_msg s = produce s.producer s

unfoldable pub spurious : System → System
unfolding woken
spurious s = record s { consumer = woken s.consumer }
