-- ===== src/Concurrency/SignalMask/Progress.antt =====
-- independant_thrd_sigmask.c: the program comes to its end.
use operating_systems_theory.Common.{
  ℕ, Bool, Bool-cases, arith, dec_lt, false, inl, inr, refl, true, ◌<◌, ◌≡◌, ◌≢◌, ◌≤◌, ◌⊎◌,
}
use operating_systems_theory.Concurrency.SignalMask.{
  Run, Chan, Cond, MainMove, Move, Role, System, Worker, WorkerMove, block, chosen, create, exited,
  join, kill, main_one, main_two, nobody, print, r_asleep, r_create, r_done, r_join, r_kill, r_lock,
  r_relock, r_send_lock, r_send_unlock, r_set, r_signal, r_test, r_unlock, send_lock, send_unlock,
  set_completed, set_sent, sleeping, unborn, w_asleep, w_lock, w_mask, w_pending, w_relock, w_set,
  w_signal, w_test, w_unlock, w_wait_lock, w_wait_unlock, wait_lock, wait_unlock, worker_one,
  worker_two, r_wait, w_wait,
}
use operating_systems_theory.Concurrency.SignalMask.Invariant.{
  Run-Inv, Inv, main_holds, past_create, past_signal, signalled, worker_holds,
}

-- A step for one thread, of `main` or of the thread.
abbrev CanMove : Chan → Type 0
CanMove c = (c' : Chan) × (MainMove c c' ⊎ WorkerMove c c')

abbrev has_exited : Worker → Bool
has_exited exited = true
has_exited _ = false

-- The thread can move unless it waits for the mutex, for `main`, or has exited.
worker-CanMove :
    (c : Chan) (w : Worker)
    → c.worker ≡ w
    → Inv c
    → main_holds c.main ≡ false
    → past_create c.main ≡ true
    → (past_signal c.main ≡ true) ⊎ (signalled w ≡ false)
    → w ≢ exited
    → CanMove c
worker-CanMove c unborn e i free running due ne = absurd (ground arith)
worker-CanMove c w_mask e i free running due ne = (_, inr (WorkerMove.mask e))
worker-CanMove c w_lock e i free running due ne = (_, inr (WorkerMove.lock e (ground arith)))
worker-CanMove c w_set e i free running due ne = (_, inr (set_completed e))
worker-CanMove c w_signal e i free running due ne = (_, inr (WorkerMove.signal e))
worker-CanMove c w_unlock e i free running due ne = (_, inr (WorkerMove.unlock e))
worker-CanMove c w_wait_lock e i free running due ne = (_, inr (wait_lock e (ground arith)))
worker-CanMove c w_test e i free running due ne = (_, inr (WorkerMove.go_on e (ground arith)))
worker-CanMove c w_wait e i free running due ne = (_, inr (WorkerMove.sleep e))
worker-CanMove c w_asleep e i free running due ne = (_, inr (WorkerMove.wake e (ground arith)))
worker-CanMove c w_relock e i free running due ne = (_, inr (WorkerMove.relock e (ground arith)))
worker-CanMove c w_wait_unlock e i free running due ne = (_, inr (wait_unlock e))
worker-CanMove c w_pending e i free running due ne = (_, inr (print e))
worker-CanMove c exited e i free running due ne = absurd (ne refl)

-- The thread can always give the mutex back.
holder-CanMove : (c : Chan) (w : Worker) → c.worker ≡ w → worker_holds w ≡ true → CanMove c
holder-CanMove c w_set e h = (_, inr (set_completed e))
holder-CanMove c w_signal e h = (_, inr (WorkerMove.signal e))
holder-CanMove c w_unlock e h = (_, inr (WorkerMove.unlock e))
holder-CanMove c w_test e h = elim (Bool-cases c.sig_sent) [
  | inl isset ↦ (_, inr (WorkerMove.go_on e isset))
  | inr unset ↦ (_, inr (WorkerMove.see_unset e unset))
]
holder-CanMove c w_wait e h = (_, inr (WorkerMove.sleep e))
holder-CanMove c w_wait_unlock e h = (_, inr (wait_unlock e))
holder-CanMove c unborn e h = absurd (ground arith)
holder-CanMove c w_mask e h = absurd (ground arith)
holder-CanMove c w_lock e h = absurd (ground arith)
holder-CanMove c w_wait_lock e h = absurd (ground arith)
holder-CanMove c w_asleep e h = absurd (ground arith)
holder-CanMove c w_relock e h = absurd (ground arith)
holder-CanMove c w_pending e h = absurd (ground arith)
holder-CanMove c exited e h = absurd (ground arith)

-- Where `main` is to take the mutex, it does, or the thread that holds it goes on.
lock-CanMove :
    (c : Chan)
    → Inv c
    → main_holds c.main ≡ false
    → (c.mtx ≡ false → (c' : Chan) × MainMove c c')
    → CanMove c
lock-CanMove c i free take_lock = elim (Bool-cases c.mtx) [
  | inr open_mtx ↦ let (c', mv) = take_lock open_mtx in (c', inl mv)
  | inl held ↦ holder-CanMove c c.worker refl (ground arith)
]

asleep-CanMove : (c : Chan) (k : Cond) → c.block_cond ≡ k → c.main ≡ r_asleep → Inv c → CanMove c
asleep-CanMove c nobody k e i = absurd (ground arith)
asleep-CanMove c chosen k e i = (_, inl (MainMove.wake e k))
asleep-CanMove c sleeping k e i =
    worker-CanMove c c.worker refl i (ground arith) (ground arith) (inr (i.main_unwoken k))
      (ground arith)

side-CanMove : (c : Chan) (r : Role) → c.main ≡ r → Inv c → r ≢ r_done → CanMove c
side-CanMove c r_create e i ne = (_, inl (create e))
side-CanMove c r_lock e i ne =
    lock-CanMove c i (ground arith) (λ open_mtx. (_, MainMove.lock e open_mtx))
side-CanMove c r_test e i ne = elim (Bool-cases c.block_completed) [
  | inl isset ↦ (_, inl (MainMove.go_on e isset))
  | inr unset ↦ (_, inl (MainMove.see_unset e unset))
]
side-CanMove c r_wait e i ne = (_, inl (MainMove.sleep e))
side-CanMove c r_asleep e i ne = asleep-CanMove c c.block_cond refl e i
side-CanMove c r_relock e i ne =
    lock-CanMove c i (ground arith) (λ open_mtx. (_, MainMove.relock e open_mtx))
side-CanMove c r_unlock e i ne = (_, inl (MainMove.unlock e))
side-CanMove c r_kill e i ne = (_, inl (kill e))
side-CanMove c r_send_lock e i ne =
    lock-CanMove c i (ground arith) (λ open_mtx. (_, send_lock e open_mtx))
side-CanMove c r_set e i ne = (_, inl (set_sent e))
side-CanMove c r_signal e i ne = (_, inl (MainMove.signal e))
side-CanMove c r_send_unlock e i ne = (_, inl (send_unlock e))
side-CanMove c r_join e i ne = elim (Bool-cases (has_exited c.worker)) [
  | inl gone ↦ (_, inl (join e (ground arith)))
  | inr left ↦
      worker-CanMove c c.worker refl i (ground arith) (ground arith) (inl (ground arith))
        (ground arith)
]
side-CanMove c r_done e i ne = absurd (ne refl)

-- `main` has come to its `exit`.
abbrev pub IsDone : System → Type 0
IsDone y = (y.one.main ≡ r_done) × (y.two.main ≡ r_done)

one-Move :
    {y : System} → block y.one.main ≤ block y.two.main → CanMove y.one → (y' : System) × Move y y'
one-Move turn (c, inl mv) = (_, main_one turn mv)
one-Move turn (c, inr mv) = (_, worker_one mv)

two-Move :
    {y : System} → block y.two.main < block y.one.main → CanMove y.two → (y' : System) × Move y y'
two-Move turn (c, inl mv) = (_, main_two turn mv)
two-Move turn (c, inr mv) = (_, worker_two mv)

-- The program never deadlocks and loses no wake-up: in every state that it reaches before its `exit`
-- some thread has a step, other than a spurious wake-up.
pub main_not_stuck : {k s : ℕ} {y : System} → Run k s y → ¬ IsDone y → (y' : System) × Move y y'
main_not_stuck {y} r unfinished =
    let (i, j) = Run-Inv r in
    elim (dec_lt (block y.two.main) (block y.one.main)) [
      | yes turn ↦ two-Move turn (side-CanMove y.two y.two.main refl j (ground arith))
      | no turn ↦ one-Move (omega arith) (side-CanMove y.one y.one.main refl i (ground arith))
    ]
