-- ===== src/Concurrency/LockedList/Delete.antt =====
-- `list_delete` of lock_coupling.c.
use operating_systems_theory.Common.{
  ℕ, Bool-cases, [], arith, false, if◌then◌else◌, inl, inr, length, none, refl, some, suc, true,
  zero, ◌+◌, ◌<◌, ◌==◌, ◌∙◌, ◌∷◌, ◌≡◌, ◌≢◌, ap,
}
use operating_systems_theory.Concurrency.LockedList.Heap.{
  Heap, Ptr, delete_loop, list_delete, node, null, put_cell, unlink, unlock_some,
}
use operating_systems_theory.Concurrency.LockedList.Chain.{
  Chain, Chain-frame, Nodes, Returns, Returns-bind, Returns-mono, SameOutside, destroy_free-ok, end,
  has, link, load-ok, lock_some-Chain, ne-null, returns, set_next-ok, unlock-ok, lock-ok,
}

-- The nodes less the first one that holds `v`, and whether there is one.
unfoldable pub erase : Nodes → ℕ → Nodes
erase [] v = []
erase ((p, w) ∷ xs) v = if w == v then xs else (p, w) ∷ erase xs v

unfoldable pub count_found : Nodes → ℕ → ℕ
count_found [] v = 0
count_found ((_, w) ∷ xs) v = if w == v then 1 else count_found xs v

not-has-erase : (a : Ptr) (xs : Nodes) (v : ℕ) → has a xs ≡ false → has a (erase xs v) ≡ false
unfolding erase
not-has-erase a [] v out = refl
not-has-erase a (x ∷ xs) v out = ground (arith, not-has-erase a xs v)

-- What the loop leaves, with `c` the node behind which it looks: the chain from `c` less the node
-- found, all mutexes free; no other memory changed; and one held mutex destroyed if one was found.
record Deleted (h : Heap) (v : ℕ) (c : Ptr × ℕ) (xs : Nodes) (g : Heap) : Type 0 where
  chain : Chain g.cell false c.0 (c ∷ erase xs v)
  same : SameOutside (c ∷ xs) h.cell g.cell
  freed : (a : Ptr) → has a xs ≡ true → has a (erase xs v) ≡ false → g.cell a ≡ none
  misused : g.misuses ≡ h.misuses + count_found xs v

module _ {h : Heap} (v : ℕ) {prev p : Ptr} {u w : ℕ} {xs : Nodes} (ne₀ : prev ≢ null)
    (out₀ : has prev ((p, w) ∷ xs) ≡ false) (e₀ : h.cell prev ≡ some (node true u p)) where
  unlink-Deleted :
      {q : Ptr}
      → p ≢ null
      → h.cell p ≡ some (node true w q)
      → has p xs ≡ false
      → Chain h.cell false q xs
      → (w == v) ≡ true
      → Returns (λ _ g. Deleted h v (prev, u) ((p, w) ∷ xs) g) (unlink prev p q h)
  unfolding unlink erase count_found
  unlink-Deleted {q} ne e out s hit =
      let h₁ : Heap = put_cell prev (some (node true u q)) h in
      let h₂ : Heap = put_cell prev (some (node false u q)) h₁ in
      rw
        (
          set_next-ok h prev e₀ q,
          unlock-ok h₁ prev {q = q} {v = u} (ground arith),
          destroy_free-ok h₂ p {q = q} {v = w} true (ground arith),
        )
        (returns (record {
          chain =
              rw hit (link ne₀ (ground arith) (ground arith) (Chain-frame s (λ a i. ground arith)));
          same = ground arith;
          freed = ground arith;
          misused = rw hit refl;
        }))

  Deleted-cons :
      (w == v) ≡ false
      → {h' : Heap} → h'.cell prev ≡ some (node false u p)
      → SameOutside ((prev, u) ∷ (p, w) ∷ xs) h.cell h'.cell
      → h'.misuses ≡ h.misuses
      → (g : Heap) → Deleted h' v (p, w) xs g
      → Deleted h v (prev, u) ((p, w) ∷ xs) g
  unfolding erase count_found
  Deleted-cons miss e' same' m g d = record {
    chain =
        rw miss (
          link ne₀ (ground (arith, d.same prev)) (ground (arith, not-has-erase prev xs v)) d.chain);
    same = λ a o. ground (arith, d.same a, same' a);
    freed = λ a i o. ground (arith, d.freed a);
    misused = rw (miss, d.misused, m);
  }

module _ (v : ℕ) where
  delete_loop-Deleted :
      (k : ℕ) {h : Heap} {prev curr : Ptr} {u : ℕ} {xs : Nodes}
      → prev ≢ null
      → h.cell prev ≡ some (node true u curr)
      → has prev xs ≡ false
      → Chain h.cell true curr xs
      → length xs < k
      → Returns (λ _ g. Deleted h v (prev, u) xs g) (delete_loop k v prev curr h)
  unfolding delete_loop unlock_some erase count_found
  delete_loop-Deleted zero ne₀ e₀ out₀ s fuel = absurd (omega arith)
  delete_loop-Deleted (suc k) {h} {prev} {u} ne₀ e₀ out₀ end fuel =
      let h₁ : Heap = put_cell prev (some (node false u null)) h in
      let d : Deleted h v (prev, u) [] h₁ = record {
        chain = link ne₀ (ground arith) refl end;
        same = λ a o. ground arith;
        freed = λ a i. cc;
        misused = omega arith;
      } in
      rw (unlock-ok h prev e₀) (returns d)
  delete_loop-Deleted (suc k) {h} {prev} {u} ne₀ e₀ out₀ (link {p} {q} {v = w} {xs} ne e out s)
        fuel =
      rw (ne-null ne, load-ok h p e)
        (elim (Bool-cases (w == v)) [
          | inl hit ↦ rw hit (unlink-Deleted v ne₀ out₀ e₀ ne e out s hit)
          | inr miss ↦
              let apart : prev ≢ p = ground arith in
              let h₁ : Heap = put_cell prev (some (node false u p)) h in
              let e₁ : h₁.cell p ≡ some (node true w q) = ground arith in
              let s₁ : Chain h₁.cell false q xs = Chain-frame s (λ a i. ground arith) in
              rw (miss, unlock-ok h prev e₀, load-ok h₁ p e₁)
                (Returns-bind (lock_some-Chain s₁) λ _ h₂ (s₂, same, m).
                  Returns-mono
                    (delete_loop-Deleted k {h = h₂} ne (same p out ∙ e₁) out s₂ (omega arith))
                    (λ _ g d.
                      Deleted-cons v ne₀ out₀ e₀ miss (ground (arith, same prev))
                        (λ a o. ground (arith, same a)) m g d))
        ])

  -- `list_delete`, with more fuel than there are nodes behind the head, on a list whose mutexes are
  -- all free, returns, takes out the first node behind the head that holds the value, frees it,
  -- leaves every mutex free and changes no other memory. Each time it finds the value it destroys
  -- one mutex that is held, and otherwise none.
  pub list_delete-erase :
      (fuel : ℕ) (h : Heap) {head : Ptr} {r : Ptr × ℕ} {xs : Nodes}
      → Chain h.cell false head (r ∷ xs)
      → length xs < fuel
      → Returns
          (λ _ g.
            Chain g.cell false head (r ∷ erase xs v)
            × SameOutside (r ∷ xs) h.cell g.cell
            × ((a : Ptr) → has a xs ≡ true → has a (erase xs v) ≡ false → g.cell a ≡ none)
            × (g.misuses ≡ h.misuses + count_found xs v))
          (list_delete fuel head v h)
  unfolding list_delete
  list_delete-erase fuel h (link {p} {q} {v = u} {xs} ne e out s) enough =
      let h₁ : Heap = put_cell p (some (node true u q)) h in
      let e₁ : h₁.cell p ≡ some (node true u q) = ground arith in
      let s₁ : Chain h₁.cell false q _ = Chain-frame s (λ a i. ground arith) in
      rw (lock-ok h p e, load-ok h₁ p e₁)
        (Returns-bind (lock_some-Chain s₁) λ _ h₂ (s₂, same, m).
          Returns-mono (delete_loop-Deleted fuel {h = h₂} ne (same p out ∙ e₁) out s₂ enough)
            λ _ g d. (
              d.chain,
              λ a o. ground (arith, d.same a, same a),
              d.freed,
              d.misused ∙ ap (λ k. k + count_found xs v) m,
            ))
