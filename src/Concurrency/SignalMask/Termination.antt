-- ===== src/Concurrency/SignalMask/Termination.antt =====
-- independant_thrd_sigmask.c: how long a run can be.
use operating_systems_theory.Common.{ℕ, Bool, arith, false, true, ◌*◌, ◌+◌, ◌<◌, ◌≤◌}
use operating_systems_theory.Concurrency.SignalMask.{
  Run, Chan, MainMove, Move, Role, Spurious, System, Wakeup, Worker, WorkerMove, begin, create,
  exited, in_one, in_two, join, kill, main_one, main_two, main_wakes, print, r_asleep, r_create,
  r_done, r_join, r_kill, r_lock, r_relock, r_send_lock, r_send_unlock, r_set, r_signal, r_test,
  r_unlock, send_lock, send_unlock, set_completed, set_sent, step, unborn, w_asleep, w_lock, w_mask,
  w_pending, w_relock, w_set, w_signal, w_test, w_unlock, w_wait_lock, w_wait_unlock, wait_lock,
  wait_unlock, wakeup, worker_one, worker_two, worker_wakes, r_wait, w_wait,
}
use operating_systems_theory.Concurrency.SignalMask.Invariant.{Run-Inv, Inv}

-- How many steps `main` has left for a thread at most, and the thread itself. Where a loop tests a
-- flag, that depends on the flag.
main_rank : Role → (flag : Bool) → ℕ
main_rank r_create flag = 15
main_rank r_lock flag = 14
main_rank r_test true = 8
main_rank r_test false = 12
main_rank r_wait flag = 11
main_rank r_asleep flag = 10
main_rank r_relock true = 9
main_rank r_relock false = 13
main_rank r_unlock flag = 7
main_rank r_kill flag = 6
main_rank r_send_lock flag = 5
main_rank r_set flag = 4
main_rank r_signal flag = 3
main_rank r_send_unlock flag = 2
main_rank r_join flag = 1
main_rank r_done flag = 0

worker_rank : Worker → (flag : Bool) → ℕ
worker_rank unborn flag = 14
worker_rank w_mask flag = 14
worker_rank w_lock flag = 13
worker_rank w_set flag = 12
worker_rank w_signal flag = 11
worker_rank w_unlock flag = 10
worker_rank w_wait_lock flag = 9
worker_rank w_test true = 3
worker_rank w_test false = 7
worker_rank w_wait flag = 6
worker_rank w_asleep flag = 5
worker_rank w_relock true = 4
worker_rank w_relock false = 8
worker_rank w_wait_unlock flag = 2
worker_rank w_pending flag = 1
worker_rank exited flag = 0

rank : Chan → ℕ
unfolding main_rank worker_rank
rank c = main_rank c.main c.block_completed + worker_rank c.worker c.sig_sent

MainMove-rank : {c c' : Chan} → MainMove c c' → Inv c → rank c' < rank c
unfolding rank
MainMove-rank (create e) i = ground arith
MainMove-rank (MainMove.lock e free) i = ground arith
MainMove-rank (MainMove.see_unset e unset) i = ground arith
MainMove-rank (MainMove.sleep e) i = ground arith
MainMove-rank (MainMove.wake e woken) i = ground arith
MainMove-rank (MainMove.relock e free) i = ground arith
MainMove-rank (MainMove.go_on e isset) i = ground arith
MainMove-rank (MainMove.unlock e) i = ground arith
MainMove-rank (kill e) i = ground arith
MainMove-rank (send_lock e free) i = ground arith
MainMove-rank (set_sent e) i = ground arith
MainMove-rank (MainMove.signal e) i = ground arith
MainMove-rank (send_unlock e) i = ground arith
MainMove-rank (join e gone) i = ground arith

WorkerMove-rank : {c c' : Chan} → WorkerMove c c' → Inv c → rank c' < rank c
unfolding rank
WorkerMove-rank (WorkerMove.mask e) i = ground arith
WorkerMove-rank (WorkerMove.lock e free) i = ground arith
WorkerMove-rank (set_completed e) i = ground arith
WorkerMove-rank (WorkerMove.signal e) i = ground arith
WorkerMove-rank (WorkerMove.unlock e) i = ground arith
WorkerMove-rank (wait_lock e free) i = ground arith
WorkerMove-rank (WorkerMove.see_unset e unset) i = ground arith
WorkerMove-rank (WorkerMove.sleep e) i = ground arith
WorkerMove-rank (WorkerMove.wake e woken) i = ground arith
WorkerMove-rank (WorkerMove.relock e free) i = ground arith
WorkerMove-rank (WorkerMove.go_on e isset) i = ground arith
WorkerMove-rank (wait_unlock e) i = ground arith
WorkerMove-rank (print e) i = ground arith

Spurious-rank : {c c' : Chan} → Spurious c c' → Inv c → rank c' ≤ rank c + 3
unfolding rank
Spurious-rank (main_wakes e asleep) i = ground arith
Spurious-rank (worker_wakes e asleep) i = ground arith

abbrev total_rank : System → ℕ
total_rank y = rank y.one + rank y.two

Move-rank : {y y' : System} → Move y y' → Inv y.one × Inv y.two → total_rank y' < total_rank y
Move-rank (main_one turn mv) (i, j) = omega (arith, MainMove-rank mv i)
Move-rank (main_two turn mv) (i, j) = omega (arith, MainMove-rank mv j)
Move-rank (worker_one mv) (i, j) = omega (arith, WorkerMove-rank mv i)
Move-rank (worker_two mv) (i, j) = omega (arith, WorkerMove-rank mv j)

Wakeup-rank :
    {y y' : System} → Wakeup y y' → Inv y.one × Inv y.two → total_rank y' ≤ total_rank y + 3
Wakeup-rank (in_one w) (i, j) = omega (arith, Spurious-rank w i)
Wakeup-rank (in_two w) (i, j) = omega (arith, Spurious-rank w j)

Run-rank : {k s : ℕ} {y : System} → Run k s y → total_rank y + k ≤ 58 + 3 * s
unfolding rank
Run-rank begin = omega arith
Run-rank (step r mv) = omega (arith, Run-rank r, Move-rank mv (Run-Inv r))
Run-rank (wakeup r w) = omega (arith, Run-rank r, Wakeup-rank w (Run-Inv r))

-- The program terminates: a run with `s` spurious wake-ups has at most `58 + 3 * s` other steps.
pub run_bound : {k s : ℕ} {y : System} → Run k s y → k ≤ 58 + 3 * s
run_bound r = omega (arith, Run-rank r)
