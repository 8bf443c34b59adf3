-- ===== src/Concurrency/Buffer/Safety.antt =====
-- What holds in every state that the producers and consumers of buffer.c reach.
use operating_systems_theory.Common.{
  ℕ, List, arith, length, refl, ◌<◌, ◌∙◌, ◌≡◌, [], inl, inr, ◌++◌, ◌≤◌,
}
use operating_systems_theory.Common.Family.{
  update-cases, update, add-le-total, only-one, total, total-Shift, total-const,
}
use operating_systems_theory.Concurrency.Buffer.{
  Buffer, Move, Pc, inside, max, AtStart, c_wait_full, init, p_wait_empty,
}
use operating_systems_theory.Concurrency.Buffer.Ring.{slots}
use operating_systems_theory.Concurrency.Threads.{Reach, Reach-keeps}
use operating_systems_theory.Concurrency.Buffer.Steps.{
  Ring, IsFresh, Move-IsFresh_other, Move-IsFresh_self, Move-Ring, emptied, emptying, fetched,
  filled, filling, steady, stored,
}

record Inv (n : ℕ) (b : Buffer) (pc : ℕ → Pc) : Type 0 where
  ring :
      Ring b
        (total inside n pc)
        (total filling n pc)
        (total filled n pc)
        (total emptying n pc)
        (total emptied n pc)
        (total stored n pc)
        (total fetched n pc)
        (total steady n pc)
  fresh : (j : ℕ) → j < n → IsFresh b (pc j)

Move-Inv :
    (n : ℕ) (m m' : Buffer) (pc : ℕ → Pc) (i : ℕ) (p' : Pc)
    → i < n
    → Move m (pc i) m' p'
    → Inv n m pc
    → Inv n m' (update pc i p')
Move-Inv n m m' pc i p' lt mv inv = record {
  ring =
      Move-Ring mv (total-Shift inside n pc i p' lt) (total-Shift filling n pc i p' lt)
        (total-Shift filled n pc i p' lt) (total-Shift emptying n pc i p' lt)
        (total-Shift emptied n pc i p' lt) (total-Shift stored n pc i p' lt)
        (total-Shift fetched n pc i p' lt) (total-Shift steady n pc i p' lt) (inv.fresh i lt)
        inv.ring;
  fresh = fresh;
}
  where
    fresh : (j : ℕ) → j < n → IsFresh m' (update pc i p' j)
    fresh j below = update-cases (IsFresh m') pc i p' j (Move-IsFresh_self mv) λ ne.
        Move-IsFresh_other (pc j) mv
          (omega (arith, add-le-total inside n pc i j lt below ne, inv.ring.counts.guarded))
          (inv.fresh j below)

zero-AtStart :
    (n : ℕ) (w : Pc → ℕ) (pc : ℕ → Pc)
    → w (p_wait_empty 0) ≡ 0
    → w c_wait_full ≡ 0
    → ((i : ℕ) → i < n → AtStart (pc i))
    → total w n pc ≡ 0
zero-AtStart n w pc hp hc at =
    total-const w 0 n pc (λ i q. elim (at i q) [ inl e ↦ rw e hp | inr e ↦ rw e hc ]) ∙ omega arith

module _ {n : ℕ} {pc₀ : ℕ → Pc} (at : (i : ℕ) → i < n → AtStart (pc₀ i)) {b : Buffer} {pc : ℕ → Pc}
    (r : Reach Move n init pc₀ b pc) where
  Reach-Inv : Inv n b pc
  unfolding slots
  Reach-Inv =
      Reach-keeps Move n (Inv n) (Move-Inv n)
        (record {
          ring = record {
            queue = [];
            ring = record {
              places = refl;
              use_fits = omega arith;
              fill_place = ground (
                arith,
                zero-AtStart n inside pc₀ refl refl at,
                zero-AtStart n filling pc₀ refl refl at,
                zero-AtStart n filled pc₀ refl refl at,
                zero-AtStart n emptying pc₀ refl refl at,
                zero-AtStart n emptied pc₀ refl refl at,
                zero-AtStart n stored pc₀ refl refl at,
                zero-AtStart n fetched pc₀ refl refl at,
                zero-AtStart n steady pc₀ refl refl at,
              );
              held = refl;
              order = refl;
            };
            counts = ground (
              arith,
              zero-AtStart n inside pc₀ refl refl at,
              zero-AtStart n filling pc₀ refl refl at,
              zero-AtStart n filled pc₀ refl refl at,
              zero-AtStart n emptying pc₀ refl refl at,
              zero-AtStart n emptied pc₀ refl refl at,
              zero-AtStart n stored pc₀ refl refl at,
              zero-AtStart n fetched pc₀ refl refl at,
              zero-AtStart n steady pc₀ refl refl at,
            );
          };
          fresh = λ j below. elim (at j below) [ inl e ↦ rw e tt | inr e ↦ rw e tt ];
        })
        r

  -- However producers and consumers interleave, what has been got is what was put, in the order in
  -- which it was put, and what is missing is at most ten values: none is lost, repeated or overtaken.
  pub fifo : (queue : List ℕ) × (b.produced ≡ b.consumed ++ queue) × (length queue ≤ max)
  fifo = let i = Reach-Inv.ring in (i.queue, i.ring.order, omega (arith, i.counts))

  -- Two threads are never inside the part that the mutex guards.
  pub mutex_excludes : (i j : ℕ) → i < n → j < n → inside (pc i) ≡ 1 → inside (pc j) ≡ 1 → i ≡ j
  mutex_excludes i j hi hj wi wj =
      only-one inside n pc i j hi hj (omega (arith, Reach-Inv.ring.counts.guarded)) (omega arith)
        (omega arith)
