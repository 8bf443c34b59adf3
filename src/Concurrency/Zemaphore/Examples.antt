-- ===== src/Concurrency/Zemaphore/Examples.antt =====
-- zemaphore.c at small inputs: a waiter falls asleep and a poster adds a unit.
use operating_systems_theory.Common.{
  ℕ, arith, inl, inr, refl, suc, zero, ℕ_discrete, ◌+◌, ◌<◌, ◌≡◌, ◌≤◌, ◌⊎◌,
}
use operating_systems_theory.Common.Family.{total}
use operating_systems_theory.Concurrency.Threads.{Reach, next, start}
use operating_systems_theory.Concurrency.Zemaphore.{
  Move, AtStart, Pc, Zem, added, increment, init, lock_post, lock_wait, on_the_way, post_start,
  sleep, taken, wait_start, load_post, see_none,
}
use operating_systems_theory.Concurrency.Zemaphore.Safety.{units_conserved, asleep, no_lost_wakeup}

abbrev pcs : ℕ → Pc
pcs zero = wait_start
pcs (suc i) = post_start

pcs-AtStart : (i : ℕ) → i < 2 → AtStart (pcs i)
pcs-AtStart zero h = inl refl
pcs-AtStart (suc i) h = inr refl

-- The waiter sleeps, the poster has added a unit and is to signal.
abbrev posted : (z : Zem) × (pc : ℕ → Pc) × Reach Move 2 (init 0) pcs z pc
unfolding ℕ_discrete
posted = (
  _,
  _,
  next
      (next
        (next
          (next
            (next (next start 0 (omega arith) (lock_wait refl)) 0 (omega arith)
              (see_none (omega arith)))
            0 (omega arith) sleep)
          1 (omega arith) (lock_post refl))
        1 (omega arith) load_post)
      1 (omega arith) increment,
)

units_conserved_example :
    (posted.0.value + total taken 2 posted.1 ≡ 0 + total added 2 posted.1)
    × (total taken 2 posted.1 ≤ 0 + total added 2 posted.1)
unfolding ℕ_discrete
units_conserved_example = units_conserved pcs-AtStart posted.2

sleeper : posted.0.wakes < total asleep 2 posted.1
unfolding ℕ_discrete total
sleeper = omega arith

no_lost_wakeup_example : (0 < posted.0.wakes) ⊎ ((i : ℕ) × (i < 2) × (0 < on_the_way (posted.1 i)))
unfolding ℕ_discrete
no_lost_wakeup_example = no_lost_wakeup pcs-AtStart posted.2 sleeper (omega arith)
