-- ===== src/Concurrency/QueueMutex/Faults.antt =====
-- ns_mutex.c: that its acquire never waits, and what a release leaves behind.
use operating_systems_theory.Common.{
  some, ◌≡◌, ◌≢◌, List, Option, [], arith, none, refl, ◌+◌, ◌-◌, ◌∷◌, ℕ,
}
use operating_systems_theory.Concurrency.QueueMutex.{
  Mutex, Node, Ptr, ns_mutex_acquire, null, ok, acquire_all, fault, node, ns_mutex_init,
  ns_mutex_release, write, ◌>>◌,
}

-- The queue can be used: no call is inside `glock`, and `tail` points at a node.
pub record IsOpen (m : Mutex) : Type 0 where
  pub glock_free : m.glock ≡ 1
  pub last : Node
  pub tail_node : m.cell m.tail ≡ some last

-- The mutex after an acquire: the new node is the last one, and its semaphore is at 0.
abbrev pub acquired : Mutex → Node → Ptr → Mutex
acquired m last fresh = record m {
  glock = m.glock - 1 + 1;
  tail = fresh;
  cell =
      write
        (write (write m.cell fresh (some (node 1 null))) m.tail
          (some (record last { next = fresh })))
        fresh (some (node 0 null));
}

-- `ns_mutex_acquire` never waits: whoever holds the mutex, a call that `malloc` gives an unused node
-- returns at once, since `node_init` starts the semaphore of the node at 1.
pub acquire-returns :
    (m : Mutex) {fresh : Ptr} (o : IsOpen m)
    → fresh ≢ null
    → m.cell fresh ≡ none
    → (ns_mutex_acquire fresh m ≡ ok (acquired m o.last fresh)) × IsOpen (acquired m o.last fresh)
unfolding ns_mutex_acquire
acquire-returns m {fresh} o ne unused = (
  ground (arith, o.glock_free, o.tail_node),
  record { glock_free = omega (arith, o.glock_free); last = node 0 null; tail_node = ground arith },
)

-- The addresses that `malloc` returns: not null, in no use, and each but once.
abbrev pub Apart : Ptr → List Ptr → Type 0
Apart p [] = Unit
Apart p (q ∷ ps) = (q ≢ p) × Apart p ps

abbrev pub Unused : (Ptr → Option Node) → List Ptr → Type 0
Unused c [] = Unit
Unused c (p ∷ ps) = (p ≢ null) × (c p ≡ none) × Apart p ps × Unused c ps

Unused-acquired :
    (m : Mutex) (o : IsOpen m) (fresh : Ptr) (ps : List Ptr)
    → Apart fresh ps
    → Unused m.cell ps
    → Unused (acquired m o.last fresh).cell ps
Unused-acquired m o fresh [] apart unused = tt
Unused-acquired m o fresh (p ∷ ps) apart unused = (
  unused.0,
  ground (arith, o.tail_node, unused.1, apart.0),
  unused.2,
  Unused-acquired m o fresh ps apart.1 unused.3,
)

-- There is no mutual exclusion: from any usable state any number of threads, to each of which
-- `malloc` gives an unused node of its own, acquire one after another with no release between them,
-- and every one of their calls returns.
pub acquire_all-returns :
    (ps : List Ptr) (m : Mutex)
    → IsOpen m
    → Unused m.cell ps
    → (m' : Mutex) × (acquire_all ps m ≡ ok m')
unfolding acquire_all
acquire_all-returns [] m o unused = (m, refl)
acquire_all-returns (p ∷ ps) m o unused =
    let (e, o') = acquire-returns m o unused.0 unused.1 in
    let (m', e') =
      acquire_all-returns ps (acquired m o.last p) o'
        (Unused-acquired m o p ps unused.2 unused.3) in
    (m', rw (e, ◌>>◌) e')

-- After `ns_mutex_init`, an acquire and its release, each given a node of its own, leave `tail` at
-- the freed node: the next acquire, given a node other than that, writes to freed memory.
pub acquire-after_release :
    (m : Mutex) (h p q : Ptr)
    → h ≢ null
    → p ≢ null
    → q ≢ null
    → p ≢ h
    → q ≢ p
    → (ns_mutex_init h >> ns_mutex_acquire p >> ns_mutex_release >> ns_mutex_acquire q) m ≡ fault
unfolding ns_mutex_init ns_mutex_acquire ns_mutex_release
acquire-after_release m h p q a b c d e = ground arith

-- A release of an empty queue, as after `ns_mutex_init`, returns and changes nothing.
pub release-empty :
    (m : Mutex) (s : ℕ)
    → m.cell m.head ≡ some (node s null)
    → ns_mutex_release (record m { glock = 1 }) ≡ ok (record m { glock = 1 })
unfolding ns_mutex_release
release-empty m s e = rw (e, ◌>>◌)
