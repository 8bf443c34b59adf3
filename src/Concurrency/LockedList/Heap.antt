-- ===== src/Concurrency/LockedList/Heap.antt =====
-- The memory of lock_coupling.c: nodes at addresses, the outcomes of a call, and the functions of the
-- file as commands over them.
use operating_systems_theory.Common.{
  ℕ, Bool, List, Option, [], false, if◌then◌else◌, none, some, suc, true, zero, ◌++◌, ◌+◌, ◌==◌,
  ◌∷◌,
}

abbrev pub Ptr : Type 0
Ptr = ℕ

abbrev pub null : Ptr
null = 0

-- `node_t`; values are only compared for equality.
pub record Node : Type 0 where
  pub locked : Bool
  pub val : ℕ
  pub next : Ptr

abbrev pub node : Bool → ℕ → Ptr → Node
node b v q = record { locked = b; val = v; next = q }

-- `misuses` counts the calls of `pthread_mutex_destroy` on a mutex that is held, which POSIX leaves
-- undefined; here such a call changes nothing else.
pub record Heap : Type 0 where
  pub cell : Ptr → Option Node
  pub misuses : ℕ

-- A call returns, reads or writes where no node is, waits for a mutex that is held, or runs out of
-- fuel.
pub data Run (A : Type 0) : Type 0 where
  ok : A → Heap → Run A
  fault : Run A
  blocked : Run A
  spent : Run A

abbrev pub Cmd : Type 0 → Type 0
Cmd A = Heap → Run A

abbrev pub pure : {A : Type 0} → A → Cmd A
pure a h = ok a h

-- What follows a call, if it returns.
abbrev pub then_ : {A B : Type 0} → Run A → (A → Cmd B) → Run B
then_ (ok a h) f = f a h
then_ fault f = fault
then_ blocked f = blocked
then_ spent f = spent

infixl 5 ◌>>=◌ ◌>>◌
abbrev pub ◌>>=◌ : {A B : Type 0} → Cmd A → (A → Cmd B) → Cmd B
◌>>=◌ m f h = then_ (m h) f

abbrev pub ◌>>◌ : {B : Type 0} → Cmd (Unit {0}) → Cmd B → Cmd B
m >> k = m >>= λ _. k

abbrev pub write : (Ptr → Option Node) → Ptr → Option Node → Ptr → Option Node
write c p x q = if p == q then x else c q

abbrev pub put_cell : Ptr → Option Node → Heap → Heap
put_cell p x h = record h { cell = write h.cell p x }

-- A function of the node at an address; a null or dangling address is a fault.
abbrev pub with_node : {A : Type 0} → (Node → Cmd A) → Option Node → Cmd A
with_node f none h = fault
with_node f (some n) h = f n h

unfoldable pub load : Ptr → Cmd Node
load p h = with_node (λ n. pure n) (h.cell p) h

unfoldable pub store : Ptr → Node → Cmd (Unit {0})
store p n h = ok tt (put_cell p (some n) h)

unfoldable pub lock : Ptr → Cmd (Unit {0})
lock p h =
    with_node
      (λ n g.
        if n.locked then blocked else ok tt (put_cell p (some (record n { locked = true })) g))
      (h.cell p) h

-- To unlock a mutex that is not held is a fault.
unfoldable pub unlock : Ptr → Cmd (Unit {0})
unlock p h =
    with_node
      (λ n g. if n.locked then ok tt (put_cell p (some (record n { locked = false })) g) else fault)
      (h.cell p) h

unfoldable pub set_next : Ptr → Ptr → Cmd (Unit {0})
set_next p q h = with_node (λ n g. ok tt (put_cell p (some (record n { next = q })) g)) (h.cell p) h

-- `pthread_mutex_destroy` and then `free`.
unfoldable pub destroy_free : Ptr → Cmd (Unit {0})
destroy_free p h =
    with_node
      (λ n g.
        ok tt (record (put_cell p none g) { misuses = g.misuses + (if n.locked then 1 else 0) }))
      (h.cell p) h

-- `fresh` is what `malloc` returns, and 0 stands for what it leaves in `val`.
unfoldable pub list_init : (fresh : Ptr) → Cmd Ptr
unfolding store
list_init fresh =
    if fresh == null then (λ h. fault) else do store fresh (node false 0 null); pure fresh

-- `if (p != NULL) pthread_mutex_lock(&p->mutex)`, and the same for unlock.
unfoldable pub lock_some : Ptr → Cmd (Unit {0})
unfolding lock
lock_some p = if p == null then pure tt else lock p

unfoldable pub unlock_some : Ptr → Cmd (Unit {0})
unfolding unlock
unlock_some p = if p == null then pure tt else unlock p

-- `list_insert` on the list whose first node is `head`, once `malloc` has returned `fresh`.
insert_at : (head fresh : Ptr) → ℕ → Cmd (Unit {0})
insert_at head fresh val = do
  store fresh (node false val null)
  lock head
  prev ← load head
  lock_some prev.next
  set_next head fresh
  set_next fresh prev.next
  unlock_some prev.next
  unlock head

unfoldable pub list_insert : (head fresh : Ptr) → ℕ → Cmd (Unit {0})
unfolding insert_at store load lock unlock set_next lock_some unlock_some
list_insert head fresh val = if fresh == null then pure tt else insert_at head fresh val

-- What `list_delete` does to the node that it looks for.
unfoldable pub unlink : (prev curr next : Ptr) → Cmd (Unit {0})
unfolding set_next unlock destroy_free
unlink prev curr next = do set_next prev next; unlock prev; destroy_free curr

-- The loop of `list_delete` and the unlocks behind it, with `prev` held, and `curr` where there is
-- one.
unfoldable pub delete_loop : ℕ → (val : ℕ) → (prev curr : Ptr) → Cmd (Unit {0})
delete_loop zero val prev curr = λ h. spent
delete_loop (suc k) val prev curr = if curr == null then (do unlock prev; unlock_some curr) else do
  c ← load curr
  if c.val == val
      then unlink prev curr c.next
      else do unlock prev; c' ← load curr; lock_some c'.next; delete_loop k val curr c'.next

unfoldable pub list_delete : (fuel : ℕ) (head : Ptr) → ℕ → Cmd (Unit {0})
list_delete fuel head val = do
  lock head
  prev ← load head
  lock_some prev.next
  delete_loop fuel val head prev.next

-- `list_print`: the values in the order in which they are printed.
unfoldable pub print_loop : ℕ → Ptr → List ℕ → Cmd (List ℕ)
print_loop zero curr out = λ h. spent
print_loop (suc k) curr out =
    if curr == null
    then pure out
    else do lock curr; c ← load curr; unlock curr; print_loop k c.next (out ++ c.val ∷ [])

unfoldable pub list_print : ℕ → Ptr → Cmd (List ℕ)
list_print fuel head = do prev ← load head; print_loop fuel prev.next []

unfoldable pub list_free : ℕ → Ptr → Cmd (Unit {0})
list_free zero curr = λ h. spent
list_free (suc k) curr =
    if curr == null then pure tt else do c ← load curr; destroy_free curr; list_free k c.next
