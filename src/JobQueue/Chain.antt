-- ===== src/JobQueue/Chain.antt =====
-- What a queue of pthread/job_queue.c stands for: a list of distinct addresses with their ids, and
-- the links between neighbours.
use mathlib.Core.Bool.{or_assoc}
use unix_demos.Base.{
  ℕ, zero, suc, ◌≡◌, ◌≢◌, refl, Bool, true, false, ◌||◌, some, List, [], ◌∷◌, ◌++◌, arith, ◌==◌,
}
use unix_demos.JobQueue.Heap.{Ptr, null, job, Lock, Heap, Queue}

-- Address and id of each job, in order.
abbrev pub Jobs : Type 0
Jobs = List (Ptr × ℕ)

abbrev pub has : Ptr → Jobs → Bool
has a [] = false
has a ((p, _) ∷ xs) = (a == p) || has a xs

-- The first address, or `stop` where there is none; and the last.
abbrev pub first : Jobs → Ptr → Ptr
first [] stop = stop
first ((p, _) ∷ xs) stop = p

abbrev pub last : Ptr → Jobs → Ptr
last prev [] = prev
last prev ((p, _) ∷ xs) = last p xs

-- Every job points to its neighbours, the outermost to `prev` and `next`.
abbrev pub Chain : Heap → Ptr → Jobs → Ptr → Type 0
Chain h prev [] next = Unit
Chain h prev ((p, i) ∷ xs) next = (h p ≡ some (job i prev (first xs next))) × Chain h p xs next

-- No address is null, and none stands twice.
abbrev pub Distinct : Jobs → Type 0
Distinct [] = Unit
Distinct ((p, _) ∷ xs) = (p ≢ null) × (has p xs ≡ false) × Distinct xs

pub record Holds (s : Queue) (xs : Jobs) : Type 0 where
  pub head : s.q_head ≡ first xs null
  pub tail : s.q_tail ≡ last null xs
  pub chain : Chain s.heap null xs null
  pub distinct : Distinct xs

abbrev pub queue : Lock → (head tail : Ptr) → Heap → List ℕ → Queue
queue l p q h o = record { q_lock = l; q_head = p; q_tail = q; heap = h; out = o }

-- The queue that holds `xs`, from the heap and the rest of the state.
abbrev pub view : Lock → Jobs → Heap → List ℕ → Queue
view l xs h o = queue l (first xs null) (last null xs) h o

-- A queue that prints holds the same jobs.
pub Holds-print :
    {s : Queue} {xs : Jobs} (o : List ℕ) → Holds s xs → Holds (record s { out = o }) xs
Holds-print o is = record {
  head = is.head;
  tail = is.tail;
  chain = is.chain;
  distinct = is.distinct;
}

-- A text, `n` times over.
unfoldable pub copies : ℕ → List ℕ → List ℕ
copies zero text = []
copies (suc n) text = text ++ copies n text

pub Holds-view :
    (s : Queue) (xs : Jobs) → Holds s xs → s.q_lock ≡ Lock.free → s ≡ view Lock.free xs s.heap s.out
Holds-view s xs is unlocked = λ i. record {
  q_lock = unlocked i;
  q_head = is.head i;
  q_tail = is.tail i;
  heap = s.heap;
  out = s.out;
}

pub has-append : (a : Ptr) (xs ys : Jobs) → has a (xs ++ ys) ≡ (has a xs || has a ys)
has-append a [] ys = refl
has-append a (x ∷ xs) ys = rw (has-append a xs ys, or_assoc)

pub first-append : (xs ys : Jobs) (stop : Ptr) → first (xs ++ ys) stop ≡ first xs (first ys stop)
first-append [] ys stop = refl
first-append (x ∷ xs) ys stop = refl

pub last-append : (prev : Ptr) (xs ys : Jobs) → last prev (xs ++ ys) ≡ last (last prev xs) ys
last-append prev [] ys = refl
last-append prev ((p, i) ∷ xs) ys = last-append p xs ys

pub Chain-append :
    (h : Heap) (prev : Ptr) (xs ys : Jobs) (next : Ptr)
    → Chain h prev xs (first ys next)
    → Chain h (last prev xs) ys next
    → Chain h prev (xs ++ ys) next
Chain-append h prev [] ys next c d = d
Chain-append h prev ((p, i) ∷ xs) ys next c d =
    (rw (first-append xs ys next) c.0, Chain-append h p xs ys next c.1 d)

pub Chain-split :
    (h : Heap) (prev : Ptr) (xs ys : Jobs) (next : Ptr)
    → Chain h prev (xs ++ ys) next
    → Chain h prev xs (first ys next) × Chain h (last prev xs) ys next
Chain-split h prev [] ys next c = (tt, c)
Chain-split h prev ((p, i) ∷ xs) ys next c =
    let rest = Chain-split h p xs ys next c.1 in
    ((rw (first-append xs ys next) at c.0, rest.0), rest.1)

-- A chain is left alone by what changes no job of it.
pub Chain-frame :
    {h g : Heap} (prev : Ptr) (xs : Jobs) (next : Ptr)
    → ((a : Ptr) → has a xs ≡ true → g a ≡ h a)
    → Chain h prev xs next
    → Chain g prev xs next
Chain-frame prev [] next same c = tt
Chain-frame prev ((p, i) ∷ xs) next same c =
    (ground (arith, same p, c.0), Chain-frame p xs next (λ a m. same a (ground arith)) c.1)

pub Distinct-split : (xs ys : Jobs) → Distinct (xs ++ ys) → Distinct xs × Distinct ys
Distinct-split [] ys d = (tt, d)
Distinct-split ((p, i) ∷ xs) ys d =
    let rest = Distinct-split xs ys d.2 in
    ((d.0, ground (arith, has-append p xs ys), rest.0), rest.1)

-- A job in the right part is not in the left part.
pub not-has_left :
    (xs : Jobs) (p i : ℕ) (ys : Jobs) → Distinct (xs ++ (p, i) ∷ ys) → has p xs ≡ false
not-has_left [] p i ys d = refl
not-has_left ((q, k) ∷ xs) p i ys d =
    ground (arith, not-has_left xs p i ys d.2, has-append q xs ((p, i) ∷ ys))

-- No job of the left part is in the right part.
pub Distinct-apart :
    (xs ys : Jobs) → Distinct (xs ++ ys) → (a : Ptr) → has a xs ≡ true → has a ys ≡ false
Distinct-apart [] ys d a m = cc
Distinct-apart ((q, k) ∷ xs) ys d a m =
    ground (arith, Distinct-apart xs ys d.2 a, has-append q xs ys)

pub Distinct-remove :
    (xs : Jobs) (p i : ℕ) (ys : Jobs) → Distinct (xs ++ (p, i) ∷ ys) → Distinct (xs ++ ys)
Distinct-remove [] p i ys d = d.2
Distinct-remove ((q, k) ∷ xs) p i ys d = (
  d.0,
  ground (arith, has-append q xs ((p, i) ∷ ys), has-append q xs ys),
  Distinct-remove xs p i ys d.2,
)

pub Distinct-snoc :
    (xs : Jobs) (p i : ℕ) → Distinct xs → p ≢ null → has p xs ≡ false → Distinct (xs ++ (p, i) ∷ [])
Distinct-snoc [] p i d nz out = (nz, refl, tt)
Distinct-snoc ((q, k) ∷ xs) p i d nz out =
    (d.0, ground (arith, has-append q xs ((p, i) ∷ [])), Distinct-snoc xs p i d.2 nz (ground arith))

-- The last of a list without `p` is not `p`.
pub last-ne : (p y k : ℕ) (ys : Jobs) → has p ((y, k) ∷ ys) ≡ false → (last y ys == p) ≡ false
last-ne p y k [] out = ground arith
last-ne p y k ((z, l) ∷ ys) out = last-ne p z l ys (ground arith)
