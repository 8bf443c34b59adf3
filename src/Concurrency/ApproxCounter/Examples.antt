-- ===== src/Concurrency/ApproxCounter/Examples.antt =====
-- approximate_counter.c with a threshold of 3.
use operating_systems_theory.Common.{arith, [], refl, ◌*◌, ◌+◌, ◌-◌, ◌∷◌, ◌≡◌, ◌≤◌}
use operating_systems_theory.Concurrency.ApproxCounter.{
  get, init, num_cpus, run, worker, add_local, flush, update,
}
use operating_systems_theory.Concurrency.ApproxCounter.Accuracy.{amounts, get_bounds}

get_bounds_test :
    (get (run ((0, 2) ∷ (8, 2) ∷ (1, 2) ∷ []) (init 3)) ≤ amounts ((0, 2) ∷ (8, 2) ∷ (1, 2) ∷ []))
    × (amounts ((0, 2) ∷ (8, 2) ∷ (1, 2) ∷ [])
        ≤ get (run ((0, 2) ∷ (8, 2) ∷ (1, 2) ∷ []) (init 3)) + num_cpus * (3 - 1))
get_bounds_test = get_bounds 3 ((0, 2) ∷ (8, 2) ∷ (1, 2) ∷ []) (omega arith)

-- Threads 0 and 8 share a processor, whose 4 are flushed; the 2 of thread 1 are not.
get_test : get (run ((0, 2) ∷ (8, 2) ∷ (1, 2) ∷ []) (init 3)) ≡ 4
unfolding get run update init flush add_local
get_test = refl

worker_test : get (run (worker 7 1) (init 5)) ≡ 5
unfolding worker get run update init flush add_local
worker_test = refl
