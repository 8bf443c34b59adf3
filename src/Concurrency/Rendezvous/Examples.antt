-- ===== src/Concurrency/Rendezvous/Examples.antt =====
-- randezvous.c up to the point where the second thread goes on.
use operating_systems_theory.Common.{ℕ, arith, inr, refl, ℕ_discrete, ◌≡◌}
use operating_systems_theory.Concurrency.Threads.{Reach, next, start}
use operating_systems_theory.Concurrency.Rendezvous.{
  Move, Sems, Pc, created, init, after-printed, unprinted, print_first, print_second, post_first,
  wait_second, post_second,
}

abbrev met : (s : Sems) × (pc : ℕ → Pc) × Reach Move 2 init created s pc
unfolding ℕ_discrete
met = (
  _,
  _,
  next
      (next
        (next (next (next start 0 (omega arith) print_first) 1 (omega arith) print_second) 0
          (omega arith) post_first)
        1 (omega arith) (wait_second (omega arith)))
      1 (omega arith) post_second,
)

after-printed_test : unprinted (met.1 0) ≡ 0
unfolding ℕ_discrete
after-printed_test = after-printed met.2 1 0 (omega arith) (omega arith) (inr refl)
