-- ===== src/Concurrency/Barrier/Examples.antt =====
-- barrier.c at small inputs: two threads go through a barrier of two.
use operating_systems_theory.Common.{ℕ, arith, refl, suc, zero, ℕ_discrete, ◌<◌, ◌≡◌}
use operating_systems_theory.Common.Family.{total}
use operating_systems_theory.Concurrency.Threads.{Reach, next, start}
use operating_systems_theory.Concurrency.Barrier.{
  Move, Barrier, Pc, after, created, early, init, last, lock, pass, passed, post, reset, uncounted,
  unlock, unlock_last,
}
use operating_systems_theory.Concurrency.Barrier.Safety.{
  passed-counted, leftover_lets_through, passed-leftover,
}
use operating_systems_theory.Concurrency.Barrier.Progress.{no_deadlock, CanMove}

-- One thread waits, the other has yet to come.
abbrev half : (b : Barrier) × (pc : ℕ → Pc) × Reach (Move 2) 2 init created b pc
unfolding ℕ_discrete
half = (
  _,
  _,
  next
      (next (next start 0 (omega arith) (lock (omega arith))) 0 (omega arith) (early (omega arith)))
      0 (omega arith) unlock,
)

-- Both are past the barrier.
abbrev whole : (b : Barrier) × (pc : ℕ → Pc) × Reach (Move 2) 2 init created b pc
unfolding ℕ_discrete
whole = (
  _,
  _,
  next
      (next
        (next
          (next
            (next
              (next (next half.2 1 (omega arith) (lock (omega arith))) 1 (omega arith) (last refl))
              1 (omega arith) post)
            1 (omega arith) post)
          1 (omega arith) (reset refl))
        1 (omega arith) unlock_last)
      0 (omega arith) (pass (omega arith)),
)

whole-after : (i : ℕ) → i < 2 → whole.1 i ≡ after
unfolding ℕ_discrete
whole-after zero h = refl
whole-after (suc zero) h = refl
whole-after (suc (suc i)) h = absurd (omega arith)

passed-counted_example : uncounted (whole.1 1) ≡ 0
unfolding ℕ_discrete
passed-counted_example = passed-counted (omega arith) whole.2 0 1 (omega arith) (omega arith) refl

passed-leftover_test : (whole.0.lock ≡ 1) × (whole.0.waiters ≡ 0) × (whole.0.sem ≡ 1)
unfolding ℕ_discrete
passed-leftover_test = passed-leftover (omega arith) whole.2 whole-after

half_unfinished : total passed 2 half.1 < 2
unfolding ℕ_discrete total
half_unfinished = omega arith

no_deadlock_example : (j : ℕ) × (j < 2) × CanMove 2 half.0 (half.1 j)
unfolding ℕ_discrete
no_deadlock_example = no_deadlock (omega arith) half.2 half_unfinished

leftover_lets_through_test :
    (b' : Barrier) × (pc : ℕ → Pc) × Reach
      (Move 3)
      1
      (record { sem = 1; lock = 1; waiters = 0 })
      created
      b'
      pc
    × (pc 0 ≡ after)
leftover_lets_through_test = leftover_lets_through 3 (omega arith) refl refl refl
