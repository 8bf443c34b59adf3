-- ===== src/Processes/GroupChange/Examples.antt =====
-- chg_pgid_for_diff_descendants.c with both children quicker than the parent.
use operating_systems_theory.Common.{false, true, ◌≡◌, refl, some}
use operating_systems_theory.Processes.GroupChange.{
  World, Move, Reach, begin, exec, exec_fails, exit1, exit2, first_both, first_usr1, first_usr2,
  fork1, fork2, kill1, kill2, second_usr1, second_usr2, setpgid1, setpgid2, step, unblock, wait1,
  wait2,
}
use operating_systems_theory.Processes.GroupChange.Invariant.{setpgid_answers}
use operating_systems_theory.Processes.GroupChange.Progress.{parent_not_stuck}

both_pending : (w : World) × Reach w
both_pending = (
  _,
  step (step (step (step (step begin (fork1 refl)) (fork2 refl)) (kill1 refl)) (exec refl))
      (kill2 refl),
)

parent_not_stuck_example : (w' : World) × Move both_pending.0 w'
unfolding both_pending
parent_not_stuck_example = parent_not_stuck both_pending.1 refl refl refl

changed : (w : World) × Reach w
unfolding both_pending
changed = (
  _,
  step
      (step
        (step (step (step both_pending.1 (first_usr2 refl refl)) (second_usr1 refl refl))
          (unblock refl))
        (setpgid1 refl))
      (setpgid2 refl),
)

setpgid_answers_example : (changed.0.changed1 ≡ some true) × (changed.0.changed2 ≡ some false)
unfolding changed both_pending
setpgid_answers_example = setpgid_answers changed.1

-- If the first `sigsuspend` takes both signals, the parent waits in the second for ever, with both
-- children gone.
waits_for_ever : (w : World) × Reach w
unfolding both_pending
waits_for_ever =
    (_, step (step (step both_pending.1 (first_both refl refl refl)) (exit1 refl)) (exit2 refl))

waits_for_ever_test : ¬ ((w' : World) × Move waits_for_ever.0 w')
unfolding waits_for_ever both_pending
waits_for_ever_test (_, fork1 e) = cc (e)
waits_for_ever_test (_, fork2 e) = cc (e)
waits_for_ever_test (_, first_usr1 e p) = cc (e)
waits_for_ever_test (_, first_usr2 e p) = cc (e)
waits_for_ever_test (_, first_both e p q) = cc (e)
waits_for_ever_test (_, second_usr1 e p) = cc (p)
waits_for_ever_test (_, second_usr2 e p) = cc (p)
waits_for_ever_test (_, unblock e) = cc (e)
waits_for_ever_test (_, setpgid1 e) = cc (e)
waits_for_ever_test (_, setpgid2 e) = cc (e)
waits_for_ever_test (_, wait1 e g) = cc (e)
waits_for_ever_test (_, wait2 e g h) = cc (e)
waits_for_ever_test (_, kill1 e) = cc (e)
waits_for_ever_test (_, exit1 e) = cc (e)
waits_for_ever_test (_, exec e) = cc (e)
waits_for_ever_test (_, exec_fails e) = cc (e)
waits_for_ever_test (_, kill2 e) = cc (e)
waits_for_ever_test (_, exit2 e) = cc (e)
