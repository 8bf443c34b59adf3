-- ===== src/Concurrency/LockedList/Chain.antt =====
-- Lists of nodes in the memory of lock_coupling.c, and what single steps do to them.
use operating_systems_theory.Common.{
  ℕ, Bool, List, Option, [], arith, false, if◌then◌else◌, none, refl, some, true, ◌+◌, ◌==◌, ◌||◌,
  ◌∷◌, ◌≡◌, ◌≢◌,
}
use operating_systems_theory.Concurrency.LockedList.Heap.{
  Heap, Cmd, Node, Ptr, Run, destroy_free, load, lock, lock_some, node, null, ok, put_cell,
  set_next, then_, unlock, write,
}

-- A list as it stands in memory: address and value of each node, in order.
abbrev pub Nodes : Type 0
Nodes = List (Ptr × ℕ)

abbrev pub has : Ptr → Nodes → Bool
has a [] = false
has a ((p, _) ∷ xs) = (a == p) || has a xs

-- From `p` the `next` pointers lead through distinct nodes to null. The mutex of the first node is
-- held exactly if `held`, those of the others are free.
pub data Chain (c : Ptr → Option Node) : Bool → Ptr → Nodes → Type 0 where
  end : {held : Bool} → Chain c held null []
  link :
      {held : Bool} {p q : Ptr} {v : ℕ} {xs : Nodes}
      → p ≢ null
      → c p ≡ some (node held v q)
      → has p xs ≡ false
      → Chain c false q xs
      → Chain c held p ((p, v) ∷ xs)

-- Memory is the same outside the nodes of `xs`.
abbrev pub SameOutside : Nodes → (Ptr → Option Node) → (Ptr → Option Node) → Type 0
SameOutside xs c d = (a : Ptr) → has a xs ≡ false → d a ≡ c a

-- A call returns, and what it returns and leaves in memory satisfies `Post`.
pub data Returns {A : Type 0} (Post : A → Heap → Type 0) : Run A → Type 0 where
  returns : {result : A} {after : Heap} → Post result after → Returns Post (ok result after)

-- What follows a call that returns, given where it may leave memory.
pub Returns-bind :
    {A B : Type 0} {first : Run A} {k : A → Cmd B} {P : A → Heap → Type 0} {Q : B → Heap → Type 0}
    → Returns P first
    → ((x : A) (g : Heap) → P x g → Returns Q (k x g))
    → Returns Q (then_ first k)
Returns-bind (returns left) rest = rest _ _ left

pub Returns-mono :
    {A : Type 0} {call : Run A} {P Q : A → Heap → Type 0}
    → Returns P call
    → ((x : A) (g : Heap) → P x g → Q x g)
    → Returns Q call
Returns-mono (returns left) implies = returns (implies _ _ left)

-- A change of memory that spares the nodes of a chain keeps it.
pub Chain-frame :
    {c d : Ptr → Option Node} {held : Bool} {p : Ptr} {xs : Nodes}
    → Chain c held p xs
    → ((a : Ptr) → has a xs ≡ true → d a ≡ c a)
    → Chain d held p xs
Chain-frame end same = end
Chain-frame (link {p} ne e out s) same =
    link ne (ground (arith, same p)) out (Chain-frame s (λ a h. same a (ground arith)))

-- The same chain with the first mutex as it is after a lock or an unlock.
pub Chain-hold :
    {c : Ptr → Option Node} (to : Bool) {p q : Ptr} {v : ℕ} {xs : Nodes}
    → p ≢ null
    → has p xs ≡ false
    → Chain c false q xs
    → Chain (write c p (some (node to v q))) to p ((p, v) ∷ xs)
Chain-hold to {p} ne out s = link ne (ground arith) out (Chain-frame s (λ a h. ground arith))

module _ (h : Heap) (p : Ptr) {q : Ptr} {v : ℕ} {b : Bool} (e : h.cell p ≡ some (node b v q)) where
  pub load-ok : load p h ≡ ok (node b v q) h
  unfolding load
  load-ok = rw e

  pub set_next-ok : (r : Ptr) → set_next p r h ≡ ok tt (put_cell p (some (node b v r)) h)
  unfolding set_next
  set_next-ok r = rw e

module _ (h : Heap) (p : Ptr) {q : Ptr} {v : ℕ} where
  pub lock-ok :
      h.cell p ≡ some (node false v q) → lock p h ≡ ok tt (put_cell p (some (node true v q)) h)
  unfolding lock
  lock-ok e = rw e

  pub unlock-ok :
      h.cell p ≡ some (node true v q) → unlock p h ≡ ok tt (put_cell p (some (node false v q)) h)
  unfolding unlock
  unlock-ok e = rw e

  pub destroy_free-ok :
      (b : Bool)
      → h.cell p ≡ some (node b v q)
      → destroy_free p h
        ≡ ok tt (record (put_cell p none h) { misuses = h.misuses + (if b then 1 else 0) })
  unfolding destroy_free
  destroy_free-ok b e = rw e

pub ne-null : {p : Ptr} → p ≢ null → (p == null) ≡ false
ne-null ne = ground arith

-- `if (p != NULL) lock`: the first mutex of the chain is held afterwards, if there is one.
pub lock_some-Chain :
    {h : Heap} {p : Ptr} {xs : Nodes}
    → Chain h.cell false p xs
    → Returns
        (λ _ g. Chain g.cell true p xs × SameOutside xs h.cell g.cell × (g.misuses ≡ h.misuses))
        (lock_some p h)
unfolding lock_some
lock_some-Chain end = returns (end, λ a o. refl, refl)
lock_some-Chain {h} (link {p} ne e out s) =
    rw (ne-null ne, lock-ok h p e) (returns (Chain-hold true ne out s, λ a o. ground arith, refl))
