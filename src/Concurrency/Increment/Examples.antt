-- ===== src/Concurrency/Increment/Examples.antt =====
-- thread_incr.c at small inputs.
use operating_systems_theory.Common.{ℕ, arith, ℕ_discrete, ◌*◌, ◌+◌, ◌≡◌, ◌≤◌}
use operating_systems_theory.Common.Family.{total}
use operating_systems_theory.Concurrency.Threads.{Reach, next, start}
use operating_systems_theory.Concurrency.Increment.{Move, Pc, created, head, load, unstored}
use operating_systems_theory.Concurrency.Increment.Races.{glob-le, lost_updates}

-- Two threads of two rounds; the first has loaded.
abbrev loading : (m : ℕ) × (pc : ℕ → Pc) × Reach Move 2 0 (created 2) m pc
unfolding ℕ_discrete
loading = (_, _, next start 0 (omega arith) load)

glob-le_test : loading.0 + total unstored 2 loading.1 ≤ 2 * 2
unfolding ℕ_discrete
glob-le_test = glob-le loading.2

lost_updates_test :
    (pc : ℕ → Pc) × Reach Move 2 0 (created 3) 3 pc × (pc 0 ≡ head 0) × (pc 1 ≡ head 0)
lost_updates_test = lost_updates 3
