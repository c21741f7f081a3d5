-- ===== src/JobQueue/Heap.antt =====
-- The store that pthread/job_queue.c works on: jobs at addresses, the queue's two ends, the state
-- of its lock, what was printed. A command faults at a null or dangling pointer, and is stuck on
-- a lock that it can never get.
use unix_demos.Base.{
  ℕ, ◌≡◌, ◌≢◌, Option, none, some, List, ◌++◌, arith, ◌==◌, ==_of_ne, if◌then◌else◌,
}

abbrev pub Ptr : Type 0
Ptr = ℕ

abbrev pub null : Ptr
null = 0

-- `struct job`
pub record Job : Type 0 where
  pub j_id : ℕ
  pub j_prev : Ptr
  pub j_next : Ptr

abbrev pub job : ℕ → Ptr → Ptr → Job
job i p n = record { j_id = i; j_prev = p; j_next = n }

pub data Lock : Type 0 where
  free read_locked write_locked : Lock

abbrev pub Heap : Type 0
Heap = Ptr → Option Job

-- `struct queue`, with the heap its pointers lead into and the text on the standard output.
pub record Queue : Type 0 where
  pub q_lock : Lock
  pub q_head : Ptr
  pub q_tail : Ptr
  pub heap : Heap
  pub out : List ℕ

pub data Run (A : Type 0) : Type 0 where
  ok : A → Queue → Run A
  exit : ℕ → Queue → Run A
  fault : Run A
  stuck : Run A
  out_of_fuel : Run A

abbrev pub Cmd : Type 0 → Type 0
Cmd A = Queue → Run A

abbrev pub pure : {A : Type 0} → A → Cmd A
pure = ok

module _ {A B : Type 0} where
  abbrev pub and_then : Run A → (A → Cmd B) → Run B
  and_then (ok a s) k = k a s
  and_then (exit c s) k = exit c s
  and_then fault k = fault
  and_then stuck k = stuck
  and_then out_of_fuel k = out_of_fuel

  infixl 5 ◌>>=◌ ◌>>◌
  abbrev pub ◌>>=◌ : Cmd A → (A → Cmd B) → Cmd B
  m >>= k = λ s. and_then (m s) k

  abbrev pub ◌>>◌ : Cmd A → Cmd B → Cmd B
  m >> n = m >>= λ _. n

unfoldable pub write : Heap → Ptr → Job → Heap
write h p j a = if p == a then some j else h a

pub write_same : (h : Heap) (p : Ptr) (j : Job) → write h p j p ≡ some j
unfolding write
write_same h p j = ground arith

-- `*p`
unfoldable pub load : Ptr → Cmd Job
load p s = if p == null then fault else elim (s.heap p) [ none ↦ fault | some j ↦ ok j s ]

abbrev pub store : Ptr → Job → Cmd (Unit {0})
store p j s = ok tt (record s { heap = write s.heap p j })

-- `p -> j_prev = q` and `p -> j_next = q`
unfoldable pub set_prev : Ptr → Ptr → Cmd (Unit {0})
set_prev p q = do j ← load p; store p (record j { j_prev = q })

unfoldable pub set_next : Ptr → Ptr → Cmd (Unit {0})
set_next p q = do j ← load p; store p (record j { j_next = q })

unfoldable pub set_id : Ptr → ℕ → Cmd (Unit {0})
set_id p i = do j ← load p; store p (record j { j_id = i })

abbrev pub get_head : Cmd Ptr
get_head s = ok s.q_head s

abbrev pub get_tail : Cmd Ptr
get_tail s = ok s.q_tail s

abbrev pub set_head : Ptr → Cmd (Unit {0})
set_head p s = ok tt (record s { q_head = p })

abbrev pub set_tail : Ptr → Cmd (Unit {0})
set_tail p s = ok tt (record s { q_tail = p })

abbrev pub print : List ℕ → Cmd (Unit {0})
print text s = ok tt (record s { out = s.out ++ text })

-- The lock, for one operation at a time: a holder that asks again waits for ever.
unfoldable pub wrlock : Cmd (Unit {0})
wrlock s = elim s.q_lock [ free ↦ ok tt (record s { q_lock = write_locked }) | _ ↦ stuck ]

unfoldable pub rdlock : Cmd (Unit {0})
rdlock s = elim s.q_lock [
  | free ↦ ok tt (record s { q_lock = read_locked })
  | read_locked ↦ ok tt s
  | write_locked ↦ stuck
]

unfoldable pub unlock : Cmd (Unit {0})
unlock s = ok tt (record s { q_lock = free })

-- A run ends well in a state and with an answer that satisfy `P`: no fault, nothing left to wait
-- for, fuel enough.
pub data Returns {A : Type 0} (P : A → Queue → Type 0) : Run A → Type 0 where
  returns : {a : A} {s : Queue} → P a s → Returns P (ok a s)

module _ {A B : Type 0} {P : A → Queue → Type 0} {Q : B → Queue → Type 0} where
  pub Returns-and_then :
      {r : Run A} {k : A → Cmd B}
      → Returns P r
      → ((a : A) (s : Queue) → P a s → Returns Q (k a s))
      → Returns Q (and_then r k)
  Returns-and_then (returns p) next = next _ _ p

module _ (s : Queue) {p : Ptr} {j : Job} (nz : p ≢ null) (e : s.heap p ≡ some j) where
  pub load_lem : load p s ≡ ok j s
  unfolding load
  load_lem = rw (==_of_ne p null nz, e)

  pub set_prev_lem :
      (q : Ptr)
      → set_prev p q s ≡ ok tt (record s { heap = write s.heap p (record j { j_prev = q }) })
  unfolding set_prev
  set_prev_lem q = rw load_lem

  pub set_next_lem :
      (q : Ptr)
      → set_next p q s ≡ ok tt (record s { heap = write s.heap p (record j { j_next = q }) })
  unfolding set_next
  set_next_lem q = rw load_lem

  pub set_id_lem :
      (i : ℕ) → set_id p i s ≡ ok tt (record s { heap = write s.heap p (record j { j_id = i }) })
  unfolding set_id
  set_id_lem i = rw load_lem

pub wrlock_lem :
    (s : Queue) → s.q_lock ≡ free → wrlock s ≡ ok tt (record s { q_lock = write_locked })
unfolding wrlock
wrlock_lem s e = rw e
