-- ===== src/Concurrency/Buffer/Examples.antt =====
-- buffer.c at small inputs: a producer puts two values and a consumer is about to get the first.
use operating_systems_theory.Common.{
  ℕ, List, [], arith, inl, inr, length, refl, suc, zero, ℕ_discrete, ◌++◌, ◌<◌, ◌∷◌, ◌≡◌, ◌≤◌,
}
use operating_systems_theory.Concurrency.Threads.{Reach, next, start}
use operating_systems_theory.Concurrency.Buffer.{
  Move, AtStart, Buffer, Pc, c_lock, c_wait_full, consume, init, load_fill, load_get_place,
  load_put_place, p_lock, p_unlock, p_wait_empty, post_full, produce, store_fill, take_empty,
  take_full,
}
use operating_systems_theory.Concurrency.Buffer.Safety.{fifo}

abbrev pcs : ℕ → Pc
pcs zero = p_wait_empty 0
pcs (suc i) = c_wait_full

pcs-AtStart : (i : ℕ) → i < 2 → AtStart (pcs i)
pcs-AtStart zero h = inl refl
pcs-AtStart (suc i) h = inr refl

-- The producer has put 0.
abbrev one_put : (b : Buffer) × (pc : ℕ → Pc) × Reach Move 2 init pcs b pc
unfolding ℕ_discrete
one_put = (
  _,
  _,
  next
      (next
        (next
          (next
            (next
              (next
                (next (next start 0 (omega arith) (take_empty (omega arith))) 0 (omega arith)
                  (p_lock (omega arith)))
                0 (omega arith) load_put_place)
              0 (omega arith) produce)
            0 (omega arith) load_fill)
          0 (omega arith) store_fill)
        0 (omega arith) p_unlock)
      0 (omega arith) post_full,
)

-- The consumer has got it, and has not advanced `use`.
abbrev passed_on : (b : Buffer) × (pc : ℕ → Pc) × Reach Move 2 init pcs b pc
unfolding ℕ_discrete
passed_on = (
  _,
  _,
  next
      (next
        (next (next one_put.2 1 (omega arith) (take_full (omega arith))) 1 (omega arith)
          (c_lock (omega arith)))
        1 (omega arith) load_get_place)
      1 (omega arith) consume,
)

fifo_example :
    (queue : List ℕ) × (passed_on.0.produced ≡ passed_on.0.consumed ++ queue) × (length queue ≤ 10)
unfolding ℕ_discrete
fifo_example = fifo pcs-AtStart passed_on.2

consumed_test : passed_on.0.consumed ≡ 0 ∷ []
unfolding ℕ_discrete
consumed_test = refl
