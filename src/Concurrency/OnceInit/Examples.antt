-- ===== src/Concurrency/OnceInit/Examples.antt =====
-- one_time_init.c with two callers, of which the second has returned.
use operating_systems_theory.Common.{ℕ, arith, refl, true, ℕ_discrete, ◌≡◌}
use operating_systems_theory.Concurrency.Threads.{Reach, next, start}
use operating_systems_theory.Concurrency.OnceInit.{
  Move, Once, Pc, created, first, lock, mark, once, returned-calls, routine, unlock,
}

abbrev initialised : (o : Once) × (pc : ℕ → Pc) × Reach Move 2 once created o pc
unfolding ℕ_discrete
initialised = (
  _,
  _,
  next
      (next
        (next (next (next start 1 (omega arith) (lock refl)) 1 (omega arith) (first refl)) 1
          (omega arith) routine)
        1 (omega arith) mark)
      1 (omega arith) unlock,
)

returned-calls_example : (initialised.0.calls ≡ 1) × (initialised.0.flg ≡ true)
unfolding ℕ_discrete
returned-calls_example = returned-calls initialised.2 1 (omega arith) refl
