-- ===== src/Pipes/SeqNum/Examples.antt =====
-- fifo_seqnum_server.c with two clients and a request that is cut short.
use operating_systems_theory.Common.{ℕ, List, [], arith, none, refl, some, true, ◌∷◌, ◌≡◌}
use operating_systems_theory.Common.Int.{pos, negsuc, to_int, ◌+ℤ◌}
use operating_systems_theory.Pipes.SeqNum.{
  AllFit, Event, Disjoint, asked, boot, boot-run, request, run, run-Disjoint, serve, short_read,
}

abbrev client : (pid len : ℕ) → Event
client pid len = request (record { pid = pid; seq_len = pos len }) true true

abbrev events : List Event
events = client 7 3 ∷ short_read ∷ client 9 2 ∷ []

run-Disjoint_example : Disjoint (run (boot none) events).0
unfolding AllFit asked serve boot to_int ◌+ℤ◌
run-Disjoint_example = run-Disjoint events (boot none) (
  omega arith,
  (omega arith, omega arith),
  (omega arith, (omega arith, omega arith), (omega arith, (omega arith, omega arith), tt)),
)

boot-run_test :
    boot (run (boot (some (pos 5))) events).1.init_file ≡ (run (boot (some (pos 5))) events).1
boot-run_test = boot-run (pos 5) events

run_test : (run (boot (some (pos 5))) events).0 ≡ ((7, pos 5), pos 3) ∷ ((9, pos 8), pos 2) ∷ []
unfolding run boot serve asked to_int ◌+ℤ◌
run_test = refl

-- Two lengths of at least 0 whose sum is no `int`: the second range begins below the first.
overflow_test :
    (run (boot none) (client 7 2147483647 ∷ client 9 1 ∷ client 7 1 ∷ [])).0
    ≡ ((7, pos 0), pos 2147483647)
      ∷ ((9, pos 2147483647), pos 1)
      ∷ ((7, negsuc 2147483647), pos 1)
      ∷ []
unfolding run boot serve asked to_int ◌+ℤ◌
overflow_test = refl
