-- ===== src/Concurrency/SignalMask/Examples.antt =====
-- independant_thrd_sigmask.c: both threads made, the first with its signal blocked.
use operating_systems_theory.Common.{arith, refl, ◌*◌, ◌+◌, ◌≤◌}
use operating_systems_theory.Concurrency.SignalMask.{
  Run, Move, System, begin, create, main_one, main_two, mask, step, worker_one,
}
use operating_systems_theory.Concurrency.SignalMask.Safety.{signals_pend, IsShown}
use operating_systems_theory.Concurrency.SignalMask.Progress.{main_not_stuck, IsDone}
use operating_systems_theory.Concurrency.SignalMask.Termination.{run_bound}

abbrev masked_once : (y : System) × Run 3 0 y
masked_once = (
  _,
  step
      (step (step begin (main_one (omega arith) (create refl)))
        (main_two (omega arith) (create refl)))
      (worker_one (mask refl)),
)

signals_pend_example : IsShown masked_once.0.one × IsShown masked_once.0.two
signals_pend_example = signals_pend masked_once.1

unfinished : ¬ IsDone masked_once.0
unfinished (e, _) = ground arith

main_not_stuck_example : (y' : System) × Move masked_once.0 y'
main_not_stuck_example = main_not_stuck masked_once.1 unfinished

run_bound_example : 3 ≤ 58 + 3 * 0
run_bound_example = run_bound masked_once.1
