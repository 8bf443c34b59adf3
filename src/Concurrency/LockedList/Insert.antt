-- ===== src/Concurrency/LockedList/Insert.antt =====
-- `list_init` and `list_insert` of lock_coupling.c.
use operating_systems_theory.Common.{ℕ, [], arith, false, refl, some, ◌∷◌, ◌≡◌, ◌≢◌, true}
use operating_systems_theory.Concurrency.LockedList.Heap.{
  Heap, Ptr, list_init, list_insert, node, null, put_cell,
}
use operating_systems_theory.Concurrency.LockedList.Chain.{
  Chain, Nodes, Returns, SameOutside, end, link, ne-null, returns, Chain-frame, has, load-ok,
  lock-ok, set_next-ok, unlock-ok,
}

-- `list_init`, given a node by `malloc`, makes the list of the first node alone, with its mutex free.
pub list_init-Chain :
    (h : Heap) {fresh : Ptr}
    → fresh ≢ null
    → Returns (λ p g. (p ≡ fresh) × Chain g.cell false p ((fresh, 0) ∷ [])) (list_init fresh h)
unfolding list_init
list_init-Chain h ne = rw (ne-null ne) (returns (refl, link ne (ground arith) refl end))

-- What `list_insert` leaves: the new node behind the first one, every mutex free, no other memory
-- changed and no mutex destroyed.
abbrev pub Inserted : Heap → Ptr → Ptr × ℕ → Ptr × ℕ → Nodes → Unit {0} → Heap → Type 0
Inserted h head r new xs _ g =
    Chain g.cell false head (r ∷ new ∷ xs)
    × SameOutside (r ∷ new ∷ xs) h.cell g.cell
    × (g.misuses ≡ h.misuses)

-- Given by `malloc` a node that no node of the list has, `list_insert` on a list whose mutexes are all
-- free returns and puts the value behind the first node.
pub list_insert-Inserted :
    (h : Heap) {head fresh : Ptr} (v : ℕ) {r : Ptr × ℕ} {xs : Nodes}
    → fresh ≢ null
    → Chain h.cell false head (r ∷ xs)
    → has fresh (r ∷ xs) ≡ false
    → Returns (Inserted h head r (fresh, v) xs) (list_insert head fresh v h)
unfolding list_insert
list_insert-Inserted h {fresh} v ne (link {p = head} {v = u} ne₀ e out end) new =
    let h₁ : Heap = put_cell fresh (some (node false v null)) h in
    let h₂ : Heap = put_cell head (some (node true u null)) h₁ in
    let h₃ : Heap = put_cell head (some (node true u fresh)) h₂ in
    let h₄ : Heap = put_cell fresh (some (node false v null)) h₃ in
    rw
      (
        ne-null ne,
        lock-ok h₁ head {q = null} {v = u} (ground arith),
        load-ok h₂ head {q = null} {v = u} {b = true} (ground arith),
        set_next-ok h₂ head {q = null} {v = u} {b = true} (ground arith) fresh,
        set_next-ok h₃ fresh {q = null} {v = v} {b = false} (ground arith) null,
        unlock-ok h₄ head {q = fresh} {v = u} (ground arith),
      )
      (returns (
        link ne₀ (ground arith) (ground arith) (link ne (ground arith) refl end),
        λ a o. ground arith,
        refl,
      ))
list_insert-Inserted h {fresh} v ne
      (link {p = head} {q} {v = u} ne₀ e out (link {q = q'} {v = w} ne₁ e₁ out₁ s)) new =
    let h₁ : Heap = put_cell fresh (some (node false v null)) h in
    let h₂ : Heap = put_cell head (some (node true u q)) h₁ in
    let h₃ : Heap = put_cell q (some (node true w q')) h₂ in
    let h₄ : Heap = put_cell head (some (node true u fresh)) h₃ in
    let h₅ : Heap = put_cell fresh (some (node false v q)) h₄ in
    let h₆ : Heap = put_cell q (some (node false w q')) h₅ in
    rw
      (
        ne-null ne,
        lock-ok h₁ head {q = q} {v = u} (ground arith),
        load-ok h₂ head {q = q} {v = u} {b = true} (ground arith),
        ne-null ne₁,
        lock-ok h₂ q {q = q'} {v = w} (ground arith),
        set_next-ok h₃ head {q = q} {v = u} {b = true} (ground arith) fresh,
        set_next-ok h₄ fresh {q = null} {v = v} {b = false} (ground arith) q,
        unlock-ok h₅ q {q = q'} {v = w} (ground arith),
        unlock-ok h₆ head {q = fresh} {v = u} (ground arith),
      )
      (returns (
        link ne₀ (ground arith) (ground arith) (
            link ne (ground arith) (ground arith)
              (link ne₁ (ground arith) out₁ (Chain-frame s (λ a i. ground arith)))),
        λ a o. ground arith,
        refl,
      ))
