-- ===== src/Concurrency/LockedList/Walk.antt =====
-- `list_print` and `list_free` of lock_coupling.c.
use operating_systems_theory.Common.{
  ℕ, List, [], append-nil, append_assoc, arith, false, if◌then◌else◌, length, none, refl, some, suc,
  sym, true, zero, ◌++◌, ◌+◌, ◌<◌, ◌∙◌, ◌∷◌, ◌≡◌,
}
use operating_systems_theory.Concurrency.LockedList.Heap.{
  Heap, Ptr, list_free, list_print, node, print_loop, put_cell,
}
use operating_systems_theory.Concurrency.LockedList.Chain.{
  Chain, Chain-frame, Nodes, Returns, Returns-mono, destroy_free-ok, end, has, link, load-ok,
  lock-ok, ne-null, returns, unlock-ok,
}

-- The values of a list in memory, in order.
unfoldable pub values : Nodes → List ℕ
values [] = []
values ((_, v) ∷ xs) = v ∷ values xs

-- A step of printing takes a mutex and gives it back: memory is the same place by place.
abbrev pub SameCells : Heap → Heap → Type 0
SameCells h g = ((a : Ptr) → g.cell a ≡ h.cell a) × (g.misuses ≡ h.misuses)

print_loop-values :
    (k : ℕ) (h : Heap) {p : Ptr} {xs : Nodes} (out : List ℕ)
    → Chain h.cell false p xs
    → length xs < k
    → Returns (λ l g. (l ≡ out ++ values xs) × SameCells h g) (print_loop k p out h)
unfolding print_loop values
print_loop-values zero h out s fuel = absurd (omega arith)
print_loop-values (suc k) h out end fuel = returns (sym (append-nil out), (λ a. refl, refl))
print_loop-values (suc k) h out (link {p} {q} {v} {xs} ne e fresh s) fuel =
    let h₁ : Heap = put_cell p (some (node true v q)) h in
    let h₂ : Heap = put_cell p (some (node false v q)) h₁ in
    rw
      (
        ne-null ne,
        lock-ok h p e,
        load-ok h₁ p {q = q} {v = v} {b = true} (ground arith),
        unlock-ok h₁ p {q = q} {v = v} (ground arith),
      )
      (Returns-mono
        (print_loop-values k h₂ (out ++ v ∷ []) (Chain-frame s (λ a i. ground arith)) (omega arith))
        λ l g (e', (same, m)).
          (e' ∙ append_assoc out (v ∷ []) (values xs), (λ a. ground (arith, same a), m)))

-- `list_print`, with more fuel than there are nodes behind the first one, on a list whose mutexes
-- are all free, returns, prints the values behind the first node in order, and leaves memory as it
-- was.
pub list_print-values :
    (fuel : ℕ) (h : Heap) {head : Ptr} {r : Ptr × ℕ} {xs : Nodes}
    → Chain h.cell false head (r ∷ xs)
    → length xs < fuel
    → Returns (λ l g. (l ≡ values xs) × SameCells h g) (list_print fuel head h)
unfolding list_print
list_print-values fuel h (link {p} ne e out s) enough =
    rw (load-ok h p e) (print_loop-values fuel h [] s enough)

-- `list_free`, with more fuel than the list has nodes, on a whole list whose mutexes are all free,
-- returns and frees every node of it, the first included, and no other; it destroys no mutex that
-- is held.
pub list_free-none :
    (fuel : ℕ) (h : Heap) {p : Ptr} {xs : Nodes}
    → Chain h.cell false p xs
    → length xs < fuel
    → Returns
        (λ _ g.
          ((a : Ptr) → g.cell a ≡ (if has a xs then none else h.cell a)) × (g.misuses ≡ h.misuses))
        (list_free fuel p h)
unfolding list_free
list_free-none zero h s enough = absurd (omega arith)
list_free-none (suc k) h end enough = returns (λ a. refl, refl)
list_free-none (suc k) h (link {p} ne e out s) enough =
    rw (ne-null ne, load-ok h p e, destroy_free-ok h p false e)
      (Returns-mono
        (list_free-none k (record (put_cell p none h) { misuses = h.misuses + 0 })
          (Chain-frame s (λ a i. ground arith)) (omega arith))
        λ _ g (same, m). (λ a. ground (arith, same a), omega (arith, m)))
