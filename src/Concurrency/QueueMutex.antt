-- ===== src/Concurrency/QueueMutex.antt =====
-- os-three-easy-pieces/concurrency/sema/ns_mutex.c: a mutex meant to serve threads in order, from a
-- queue of semaphores.
use operating_systems_theory.Common.{
  ℕ, List, Option, [], if◌then◌else◌, ltb, none, some, ◌+◌, ◌-◌, ◌==◌, ◌∷◌,
}
pub mod Faults
mod Examples

abbrev pub Ptr : Type 0
Ptr = ℕ

abbrev pub null : Ptr
null = 0

-- `node_t`
pub record Node : Type 0 where
  pub sem : ℕ
  pub next : Ptr

abbrev pub node : ℕ → Ptr → Node
node s q = record { sem = s; next = q }

-- `ns_mutex_t` with its `lock_queue_t`, and the nodes in memory. The semaphore `glock` of
-- `ns_mutex_t` itself is initialised and never used.
pub record Mutex : Type 0 where
  pub outer_glock : ℕ
  pub glock : ℕ
  pub head : Ptr
  pub tail : Ptr
  pub cell : Ptr → Option Node

abbrev pub write : (Ptr → Option Node) → Ptr → Option Node → Ptr → Option Node
write c p x q = if p == q then x else c q

-- A call returns, waits on a semaphore at 0, or reads or writes where no node is.
pub data Run : Type 0 where
  ok : Mutex → Run
  blocked : Run
  fault : Run

abbrev pub Cmd : Type 0
Cmd = Mutex → Run

infixl 5 ◌>>◌
abbrev pub ◌>>◌ : Cmd → Cmd → Cmd
◌>>◌ f g m = elim (f m) [ ok m' ↦ g m' | blocked ↦ blocked | fault ↦ fault ]

-- `sem_wait` and `sem_post` on the queue's `glock`.
wait_glock : Cmd
wait_glock m = if ltb 0 m.glock then ok (record m { glock = m.glock - 1 }) else blocked

post_glock : Cmd
post_glock m = ok (record m { glock = m.glock + 1 })

with_node : (Node → Cmd) → Option Node → Cmd
with_node f none m = fault
with_node f (some n) m = f n m

-- A change of the node at an address.
abbrev set_node : Ptr → Node → Cmd
set_node p n m = ok (record m { cell = write m.cell p (some n) })

-- `sem_wait` on the semaphore of a node.
wait_node : Ptr → Cmd
unfolding with_node
wait_node p m =
    with_node (λ n. if ltb 0 n.sem then set_node p (record n { sem = n.sem - 1 }) else λ _. blocked)
      (m.cell p) m

-- `q->tail->next = new_node`
link_tail : Ptr → Cmd
unfolding with_node
link_tail fresh m = with_node (λ n. set_node m.tail (record n { next = fresh })) (m.cell m.tail) m

-- `lock_queue_init`: `malloc` returns `fresh`, whose semaphore is not initialised.
pub lock_queue_init : (fresh : Ptr) → Cmd
lock_queue_init fresh m =
    if fresh == null
    then fault
    else ok (record m {
      head = fresh;
      tail = fresh;
      glock = 1;
      cell = write m.cell fresh (some (node 0 null));
    })

pub ns_mutex_init : (fresh : Ptr) → Cmd
unfolding lock_queue_init
ns_mutex_init fresh m = lock_queue_init fresh (record m { outer_glock = 1 })

-- `lock_queue_enqueue`: `malloc` returns `fresh`, and `node_init` sets its semaphore to 1.
pub lock_queue_enqueue : (fresh : Ptr) → Cmd
unfolding wait_glock post_glock wait_node link_tail
lock_queue_enqueue fresh =
    if fresh == null
    then (λ _. fault)
    else (set_node fresh (node 1 null)
        >> wait_glock
        >> link_tail fresh
        >> (λ m. ok (record m { tail = fresh }))
        >> post_glock
        >> wait_node fresh)

-- The branch of `lock_queue_dequeue` for a queue that is not empty: `curr` is posted and freed.
abbrev drop_first : (head : Node) (curr : Ptr) → Cmd
drop_first head curr m =
    with_node
      (λ n g. ok (record g {
        cell = write (write g.cell g.head (some (record head { next = n.next }))) curr none;
      }))
      (m.cell curr) m

dequeue_node : Cmd
unfolding with_node
dequeue_node m =
    with_node (λ head. if head.next == null then ok else drop_first head head.next) (m.cell m.head)
      m

pub lock_queue_dequeue : Cmd
unfolding wait_glock post_glock dequeue_node
lock_queue_dequeue = wait_glock >> dequeue_node >> post_glock

pub ns_mutex_acquire : (fresh : Ptr) → Cmd
unfolding lock_queue_enqueue
ns_mutex_acquire = lock_queue_enqueue

pub ns_mutex_release : Cmd
unfolding lock_queue_dequeue
ns_mutex_release = lock_queue_dequeue

-- One thread after another acquires, and none releases.
pub acquire_all : List Ptr → Cmd
acquire_all [] = ok
acquire_all (p ∷ ps) = ns_mutex_acquire p >> acquire_all ps
