-- ===== src/Processes/GroupChange.antt =====
-- linux-api-kerrisk/pgrps-sessions-taskmngmnt/chg_pgid_for_diff_descendants.c: a parent that changes
-- the process group of a child that has not called exec and of one that has, which is helper.c then.
-- Each child tells the parent by a signal. The calls succeed but for `execl`, which may fail.
use operating_systems_theory.Common.{Bool, Option, false, not, none, some, true, ◌≡◌, ◌⊎◌}
pub mod Invariant
pub mod Progress
mod Examples

pub data Parent : Type 0 where
  p_fork1 : Parent
  p_fork2 : Parent
  p_suspend1 : Parent
  p_suspend2 : Parent
  p_unblock : Parent
  p_setpgid1 : Parent
  p_setpgid2 : Parent
  p_wait1 : Parent
  p_wait2 : Parent
  p_exited : Parent

pub data ChildOne : Type 0 where
  one_unborn : ChildOne
  one_kill : ChildOne
  one_exit : ChildOne
  one_gone : ChildOne

pub data ChildTwo : Type 0 where
  two_unborn : ChildTwo
  two_exec : ChildTwo
  -- in helper.c
  two_kill : ChildTwo
  two_exit : ChildTwo
  two_gone : ChildTwo
  -- behind a failed `execl`
  two_failed : ChildTwo

-- The three processes; for SIGUSR1 and SIGUSR2, whether it is pending and whether its handler has run;
-- and whether each `setpgid` succeeded.
pub record World : Type 0 where
  pub parent : Parent
  pub one : ChildOne
  pub two : ChildTwo
  pub pending1 : Bool
  pub pending2 : Bool
  pub caught1 : Bool
  pub caught2 : Bool
  pub changed1 : Option Bool
  pub changed2 : Option Bool

abbrev pub started : World
started = record {
  parent = p_fork1;
  one = one_unborn;
  two = two_unborn;
  pending1 = false;
  pending2 = false;
  caught1 = false;
  caught2 = false;
  changed1 = none;
  changed2 = none;
}

-- The child runs another program.
abbrev pub has_execed : ChildTwo → Bool
has_execed two_kill = true
has_execed two_exit = true
has_execed two_gone = true
has_execed _ = false

-- `setpgid` on a child fails with EACCES once the child has called exec.
abbrev pub setpgid : (execed : Bool) → Bool
setpgid execed = not execed

-- A step. Both signals are blocked but in `sigsuspend`, which returns when the handlers of one pending
-- signal, or of both, have run.
pub data Move (w : World) : World → Type 0 where
  fork1 : w.parent ≡ p_fork1 → Move w (record w { parent = p_fork2; one = one_kill })
  fork2 : w.parent ≡ p_fork2 → Move w (record w { parent = p_suspend1; two = two_exec })
  first_usr1 :
      w.parent ≡ p_suspend1
      → w.pending1 ≡ true
      → Move w (record w { parent = p_suspend2; pending1 = false; caught1 = true })
  first_usr2 :
      w.parent ≡ p_suspend1
      → w.pending2 ≡ true
      → Move w (record w { parent = p_suspend2; pending2 = false; caught2 = true })
  first_both :
      w.parent ≡ p_suspend1
      → w.pending1 ≡ true
      → w.pending2 ≡ true
      → Move w (record w {
        parent = p_suspend2;
        pending1 = false;
        pending2 = false;
        caught1 = true;
        caught2 = true;
      })
  second_usr1 :
      w.parent ≡ p_suspend2
      → w.pending1 ≡ true
      → Move w (record w { parent = p_unblock; pending1 = false; caught1 = true })
  second_usr2 :
      w.parent ≡ p_suspend2
      → w.pending2 ≡ true
      → Move w (record w { parent = p_unblock; pending2 = false; caught2 = true })
  unblock : w.parent ≡ p_unblock → Move w (record w { parent = p_setpgid1 })
  setpgid1 :
      w.parent ≡ p_setpgid1
      → Move w (record w { parent = p_setpgid2; changed1 = some (setpgid false) })
  setpgid2 :
      w.parent ≡ p_setpgid2
      → Move w (record w { parent = p_wait1; changed2 = some (setpgid (has_execed w.two)) })
  wait1 :
      w.parent ≡ p_wait1
      → (w.one ≡ one_gone) ⊎ (w.two ≡ two_gone)
      → Move w (record w { parent = p_wait2 })
  wait2 :
      w.parent ≡ p_wait2
      → w.one ≡ one_gone
      → w.two ≡ two_gone
      → Move w (record w { parent = p_exited })
  kill1 : w.one ≡ one_kill → Move w (record w { one = one_exit; pending1 = true })
  exit1 : w.one ≡ one_exit → Move w (record w { one = one_gone })
  exec : w.two ≡ two_exec → Move w (record w { two = two_kill })
  exec_fails : w.two ≡ two_exec → Move w (record w { two = two_failed })
  kill2 : w.two ≡ two_kill → Move w (record w { two = two_exit; pending2 = true })
  exit2 : w.two ≡ two_exit → Move w (record w { two = two_gone })

pub data Reach : World → Type 0 where
  begin : Reach started
  step : {w w' : World} → Reach w → Move w w' → Reach w'
