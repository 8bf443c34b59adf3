-- ===== src/Processes/GroupChange/Progress.antt =====
-- chg_pgid_for_diff_descendants.c: where a run can stop.
use operating_systems_theory.Common.{
  ◌⊎◌, Bool, Bool-cases, arith, false, inl, inr, refl, true, ◌&&◌, ◌≡◌,
}
use operating_systems_theory.Processes.GroupChange.{
  World, ChildOne, ChildTwo, Move, Parent, Reach, exec, exit1, exit2, first_usr1, fork1, fork2,
  kill1, kill2, one_exit, one_gone, one_kill, one_unborn, p_exited, p_fork1, p_fork2, p_setpgid1,
  p_setpgid2, p_suspend1, p_suspend2, p_unblock, p_wait1, p_wait2, second_usr1, second_usr2,
  setpgid1, setpgid2, two_exec, two_exit, two_failed, two_gone, two_kill, two_unborn, unblock,
  wait1, wait2,
}
use operating_systems_theory.Processes.GroupChange.Invariant.{
  Inv, Reach-Inv, has_sent1, has_sent2, is_born1, is_born2,
}

abbrev pub is_exited : Parent → Bool
is_exited p_exited = true
is_exited _ = false

abbrev pub is_failed : ChildTwo → Bool
is_failed two_failed = true
is_failed _ = false

-- The parent is in its second `sigsuspend`, and both signals were taken in the first.
abbrev pub took_both : Parent → (caught1 caught2 : Bool) → Bool
took_both p_suspend2 caught1 caught2 = caught1 && caught2
took_both _ caught1 caught2 = false

abbrev CanMove : World → Type 0
CanMove w = (w' : World) × Move w w'

-- A child that has not sent its signal, and has no failure behind it, can go on.
one_moves :
    (w : World) (c : ChildOne) → w.one ≡ c → is_born1 c ≡ true → has_sent1 c ≡ false → CanMove w
one_moves w one_unborn e b s = absurd (cc (b))
one_moves w one_kill e b s = (_, kill1 e)
one_moves w one_exit e b s = absurd (cc (s))
one_moves w one_gone e b s = absurd (cc (s))

two_moves :
    (w : World) (c : ChildTwo)
    → w.two ≡ c
    → is_born2 c ≡ true
    → has_sent2 c ≡ false
    → is_failed c ≡ false
    → CanMove w
two_moves w two_unborn e b s f = absurd (cc (b))
two_moves w two_exec e b s f = (_, exec e)
two_moves w two_kill e b s f = (_, kill2 e)
two_moves w two_exit e b s f = absurd (cc (s))
two_moves w two_gone e b s f = absurd (cc (s))
two_moves w two_failed e b s f = absurd (cc (f))

one_ends :
    (w : World) (c : ChildOne) → w.one ≡ c → is_born1 c ≡ true → CanMove w ⊎ (w.one ≡ one_gone)
one_ends w one_unborn e b = absurd (cc (b))
one_ends w one_kill e b = inl (_, kill1 e)
one_ends w one_exit e b = inl (_, exit1 e)
one_ends w one_gone e b = inr e

two_ends :
    (w : World) (c : ChildTwo)
    → w.two ≡ c
    → is_born2 c ≡ true
    → is_failed c ≡ false
    → CanMove w ⊎ (w.two ≡ two_gone)
two_ends w two_unborn e b f = absurd (cc (b))
two_ends w two_exec e b f = inl (_, exec e)
two_ends w two_kill e b f = inl (_, kill2 e)
two_ends w two_exit e b f = inl (_, exit2 e)
two_ends w two_gone e b f = inr e
two_ends w two_failed e b f = absurd (cc (f))

parent_moves :
    (w : World) (p : Parent)
    → w.parent ≡ p
    → Inv w
    → is_exited p ≡ false
    → took_both p w.caught1 w.caught2 ≡ false
    → is_failed w.two ≡ false
    → CanMove w
parent_moves w p_fork1 e i x t f = (_, fork1 e)
parent_moves w p_fork2 e i x t f = (_, fork2 e)
parent_moves w p_suspend1 e i x t f = elim (Bool-cases w.pending1) [
  | inl p ↦ (_, first_usr1 e p)
  | inr p ↦ one_moves w w.one refl (ground (arith, i.born1)) (ground (arith, i.signal1, i.fitting))
]
parent_moves w p_suspend2 e i x t f = elim (Bool-cases w.pending1) [
  | inl p ↦ (_, second_usr1 e p)
  | inr p ↦ elim (Bool-cases w.pending2) [
    | inl q ↦ (_, second_usr2 e q)
    | inr q ↦ elim (Bool-cases w.caught1) [
      | inr c ↦ one_moves w w.one refl (ground (arith, i.born1)) (ground (arith, i.signal1))
      | inl c ↦ two_moves w w.two refl (ground (arith, i.born2)) (ground (arith, i.signal2)) f
    ]
  ]
]
parent_moves w p_unblock e i x t f = (_, unblock e)
parent_moves w p_setpgid1 e i x t f = (_, setpgid1 e)
parent_moves w p_setpgid2 e i x t f = (_, setpgid2 e)
parent_moves w p_wait1 e i x t f = elim (one_ends w w.one refl (ground (arith, i.born1))) [
  | inl m ↦ m
  | inr g ↦ (_, wait1 e (inl g))
]
parent_moves w p_wait2 e i x t f = elim (one_ends w w.one refl (ground (arith, i.born1))) [
  | inl m ↦ m
  | inr g ↦ elim (two_ends w w.two refl (ground (arith, i.born2)) f) [
    | inl m ↦ m
    | inr h ↦ (_, wait2 e g h)
  ]
]
parent_moves w p_exited e i x t f = absurd (cc (x))

-- In every reachable state some process can take a step, unless the parent has exited, or the second
-- child's `execl` has failed, or both signals were pending at the first `sigsuspend` and both handlers
-- ran there.
pub parent_not_stuck :
    {w : World}
    → Reach w
    → is_exited w.parent ≡ false
    → is_failed w.two ≡ false
    → took_both w.parent w.caught1 w.caught2 ≡ false
    → (w' : World) × Move w w'
parent_not_stuck {w} r x f t = parent_moves w w.parent refl (Reach-Inv r) x t f
