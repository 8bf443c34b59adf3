-- ===== src/Concurrency/Counter/Examples.antt =====
-- counter.c at small inputs: one thread that counts to 1, and the calls on a counter.
use operating_systems_theory.Common.{ℕ, arith, refl, ℕ_discrete, ◌≡◌, ◌≤◌}
use operating_systems_theory.Common.Int.{pos}
use operating_systems_theory.Concurrency.Threads.{Reach, next, start}
use operating_systems_theory.Concurrency.Counter.{
  Move, Counter, Pc, created, dec, get, go, inc, init, leave, load, lock, stop, store, unlock,
}
use operating_systems_theory.Concurrency.Counter.Safety.{mutual_exclusion, value_bounds}

-- One thread that counts to 1 and finishes.
abbrev counted : (c : Counter) × (pc : ℕ → Pc) × Reach (Move 1) 1 init created c pc
unfolding ℕ_discrete
counted = (
  _,
  _,
  next
      (next
        (next
          (next
            (next
              (next (next (next start 0 (omega arith) (lock refl)) 0 (omega arith) (go refl)) 0
                (omega arith) load)
              0 (omega arith) store)
            0 (omega arith) unlock)
          0 (omega arith) (lock refl))
        0 (omega arith) (stop refl))
      0 (omega arith) leave,
)

-- Two threads, of which the second has the mutex.
abbrev entered : (c : Counter) × (pc : ℕ → Pc) × Reach (Move 1) 2 init created c pc
unfolding ℕ_discrete
entered = (_, _, next start 1 (omega arith) (lock refl))

mutual_exclusion_test : ◌≡◌ {A = ℕ} 1 1
unfolding ℕ_discrete
mutual_exclusion_test = mutual_exclusion entered.2 1 1 (omega arith) (omega arith) refl refl

value_bounds_test : (v : ℕ) × (counted.0.value ≡ pos v) × (v ≤ 1)
unfolding ℕ_discrete
value_bounds_test = value_bounds counted.2

inc-dec_test : (inc (dec init).1).0 ≡ (get init).0
unfolding inc dec get
inc-dec_test = refl
