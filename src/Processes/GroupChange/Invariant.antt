-- ===== src/Processes/GroupChange/Invariant.antt =====
-- chg_pgid_for_diff_descendants.c: what holds in every state, and what `setpgid` answers.
use operating_systems_theory.Common.{
  Bool, Option, arith, false, none, not, some, true, ◌&&◌, ◌||◌, ◌≡◌,
}
use operating_systems_theory.Processes.GroupChange.{
  World, ChildOne, ChildTwo, Move, Parent, Reach, begin, exec, exec_fails, exit1, exit2, first_both,
  first_usr1, first_usr2, fork1, fork2, kill1, kill2, one_exit, one_gone, one_unborn, p_fork1,
  p_fork2, p_suspend1, p_suspend2, second_usr1, second_usr2, setpgid1, setpgid2, step, two_exit,
  two_gone, two_unborn, unblock, wait1, wait2, p_exited, p_setpgid2, p_wait1, p_wait2,
}

abbrev pub past_fork1 : Parent → Bool
past_fork1 p_fork1 = false
past_fork1 _ = true

abbrev pub past_fork2 : Parent → Bool
past_fork2 p_fork1 = false
past_fork2 p_fork2 = false
past_fork2 _ = true

abbrev pub is_born1 : ChildOne → Bool
is_born1 one_unborn = false
is_born1 _ = true

abbrev pub is_born2 : ChildTwo → Bool
is_born2 two_unborn = false
is_born2 _ = true

-- The child has sent its signal.
abbrev pub has_sent1 : ChildOne → Bool
has_sent1 one_exit = true
has_sent1 one_gone = true
has_sent1 _ = false

abbrev pub has_sent2 : ChildTwo → Bool
has_sent2 two_exit = true
has_sent2 two_gone = true
has_sent2 _ = false

-- How the handlers that have run fit to where the parent is: none in front of the first `sigsuspend`,
-- some behind it, and both behind the second.
abbrev pub fits : Parent → (caught1 caught2 : Bool) → Bool
fits p_fork1 caught1 caught2 = not (caught1 || caught2)
fits p_fork2 caught1 caught2 = not (caught1 || caught2)
fits p_suspend1 caught1 caught2 = not (caught1 || caught2)
fits p_suspend2 caught1 caught2 = caught1 || caught2
fits _ caught1 caught2 = caught1 && caught2

-- What each `setpgid` has answered, by where the parent is.
abbrev pub answered1 : Parent → Option Bool
answered1 p_setpgid2 = some true
answered1 p_wait1 = some true
answered1 p_wait2 = some true
answered1 p_exited = some true
answered1 _ = none

abbrev pub answered2 : Parent → Option Bool
answered2 p_wait1 = some false
answered2 p_wait2 = some false
answered2 p_exited = some false
answered2 _ = none

pub record Inv (w : World) : Type 0 where
  pub born1 : is_born1 w.one ≡ past_fork1 w.parent
  pub born2 : is_born2 w.two ≡ past_fork2 w.parent
  pub signal1 : (w.pending1 || w.caught1) ≡ has_sent1 w.one
  pub signal2 : (w.pending2 || w.caught2) ≡ has_sent2 w.two
  pub once1 : (w.pending1 && w.caught1) ≡ false
  pub once2 : (w.pending2 && w.caught2) ≡ false
  pub fitting : fits w.parent w.caught1 w.caught2 ≡ true
  pub answer1 : w.changed1 ≡ answered1 w.parent
  pub answer2 : w.changed2 ≡ answered2 w.parent

Move-Inv : {w w' : World} → Move w w' → Inv w → Inv w'
Move-Inv (fork1 e) i = ground arith
Move-Inv (fork2 e) i = ground arith
Move-Inv (first_usr1 e p) i = ground arith
Move-Inv (first_usr2 e p) i = ground arith
Move-Inv (first_both e p q) i = ground arith
Move-Inv (second_usr1 e p) i = ground arith
Move-Inv (second_usr2 e p) i = ground arith
Move-Inv (unblock e) i = ground arith
Move-Inv (setpgid1 e) i = ground arith
Move-Inv (setpgid2 e) i = ground arith
Move-Inv (wait1 e g) i = ground arith
Move-Inv (wait2 e g h) i = ground arith
Move-Inv (kill1 e) i = ground arith
Move-Inv (exit1 e) i = ground arith
Move-Inv (exec e) i = ground arith
Move-Inv (exec_fails e) i = ground arith
Move-Inv (kill2 e) i = ground arith
Move-Inv (exit2 e) i = ground arith

pub Reach-Inv : {w : World} → Reach w → Inv w
Reach-Inv begin = ground arith
Reach-Inv (step r m) = Move-Inv m (Reach-Inv r)

-- However the three processes interleave, `setpgid` succeeds for the first child, and fails for the
-- second, which has called exec by then: the messages "This is impossible" are never printed.
pub setpgid_answers :
    {w : World} → Reach w → (w.changed1 ≡ answered1 w.parent) × (w.changed2 ≡ answered2 w.parent)
setpgid_answers r = let i = Reach-Inv r in (i.answer1, i.answer2)
