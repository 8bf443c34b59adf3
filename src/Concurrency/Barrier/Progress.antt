-- ===== src/Concurrency/Barrier/Progress.antt =====
-- barrier.c: the threads never come to a halt before all of them are past the barrier.
use operating_systems_theory.Common.{ℕ, arith, dec_lt, refl, suc, zero, ℕ_discrete, ◌+◌, ◌<◌, ◌≤◌}
use operating_systems_theory.Common.Family.{total, find-total, total_mono}
use operating_systems_theory.Concurrency.Threads.{Reach}
use operating_systems_theory.Concurrency.Barrier.{
  Barrier, Move, Pc, after, before, counting, created, early, init, last, lock, pass, passed, post,
  posting, reset, uncounted, unlock, unlock_last, unlocking, unlocking_last, waiting,
}
use operating_systems_theory.Concurrency.Barrier.Safety.{
  Inv, Reach-Inv, blocked, closing, locking, releasing,
}

-- A thread with this counter has a next step.
abbrev pub CanMove : ℕ → Barrier → Pc → Type 0
CanMove n b p = (b' : Barrier) × (p' : Pc) × Move n b p b' p'

-- The thread that holds the lock can always go on.
locking-CanMove : (n : ℕ) (b : Barrier) (p : Pc) → 0 < locking p → CanMove n b p
locking-CanMove n b counting h = elim (ℕ_discrete (b.waiters + 1) n) [
  | yes e ↦ (_, _, last e)
  | no ne ↦ (_, _, early ne)
]
locking-CanMove n b (posting zero) h = (_, _, reset refl)
locking-CanMove n b (posting (suc k)) h = (_, _, post)
locking-CanMove n b unlocking_last h = (_, _, unlock_last)
locking-CanMove n b unlocking h = (_, _, unlock)
locking-CanMove n b before h = absurd (omega arith)
locking-CanMove n b waiting h = absurd (omega arith)
locking-CanMove n b after h = absurd (omega arith)

-- Nor is a thread stuck that is not counted, if the lock is free.
uncounted-CanMove : (n : ℕ) (b : Barrier) (p : Pc) → 0 < b.lock → 0 < uncounted p → CanMove n b p
uncounted-CanMove n b before free h = (_, _, lock free)
uncounted-CanMove n b counting free h = locking-CanMove n b counting (omega arith)
uncounted-CanMove n b (posting k) free h = absurd (omega arith)
uncounted-CanMove n b unlocking_last free h = absurd (omega arith)
uncounted-CanMove n b unlocking free h = absurd (omega arith)
uncounted-CanMove n b waiting free h = absurd (omega arith)
uncounted-CanMove n b after free h = absurd (omega arith)

blocked-CanMove : (n : ℕ) (b : Barrier) (p : Pc) → 0 < b.sem → 0 < blocked p → CanMove n b p
blocked-CanMove n b waiting open_gate h = (_, _, pass open_gate)
blocked-CanMove n b unlocking open_gate h = locking-CanMove n b unlocking (omega arith)
blocked-CanMove n b before open_gate h = absurd (omega arith)
blocked-CanMove n b counting open_gate h = absurd (omega arith)
blocked-CanMove n b (posting k) open_gate h = absurd (omega arith)
blocked-CanMove n b unlocking_last open_gate h = absurd (omega arith)
blocked-CanMove n b after open_gate h = absurd (omega arith)

-- With as many threads as the threshold the barrier never deadlocks: in every reachable state in
-- which some thread is not past the barrier, some thread has a next step.
pub no_deadlock :
    {n : ℕ} {b : Barrier} {pc : ℕ → Pc}
    → 0 < n
    → Reach (Move n) n init created b pc
    → total passed n pc < n
    → (j : ℕ) × (j < n) × CanMove n b (pc j)
no_deadlock {n} {b} {pc} some_thread r unfinished = elim (dec_lt 0 (total locking n pc)) [
  | yes held ↦
      let (j, below, w) = find-total locking n pc held in (j, below, locking-CanMove n b (pc j) w)
  | no free ↦ elim (dec_lt 0 (total uncounted n pc)) [
    | yes more ↦
        let (j, below, w) = find-total uncounted n pc more in
        (j, below, uncounted-CanMove n b (pc j) (omega (arith, inv.locked)) w)
    | no counted ↦
        let (j, below, w) =
          find-total blocked n pc (ground (arith, inv, idle_releasing, idle_closing)) in
        (j, below, blocked-CanMove n b (pc j) (ground (arith, inv, idle_releasing)) w)
  ]
]
  where
    inv : Inv n b pc
    inv = Reach-Inv some_thread r

    idle_releasing : total releasing n pc ≤ total locking n pc
    idle_releasing = total_mono releasing locking (λ p. ground arith) n pc

    idle_closing : total closing n pc ≤ total locking n pc
    idle_closing = total_mono closing locking (λ p. ground arith) n pc
