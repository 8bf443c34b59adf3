-- ===== src/Concurrency/SignalMask/Invariant.antt =====
-- independant_thrd_sigmask.c: what holds of one thread and of what `main` does for it, in every state.
use operating_systems_theory.Common.{
  ℕ, Bool, Option, arith, false, none, some, true, ◌&&◌, ◌||◌, ◌≡◌,
}
use operating_systems_theory.Concurrency.SignalMask.{
  Role, Chan, Cond, MainMove, Move, Run, Spurious, System, Wakeup, Worker, WorkerMove, begin,
  chosen, create, created, exited, in_one, in_two, join, kill, main_one, main_two, main_wakes,
  nobody, print, r_asleep, r_create, r_kill, r_lock, r_relock, r_send_lock, r_send_unlock, r_set,
  r_signal, r_test, r_unlock, send_lock, send_unlock, set_completed, set_sent, sleeping, step,
  unborn, w_asleep, w_lock, w_mask, w_pending, w_set, w_signal, w_test, w_unlock, w_wait_unlock,
  wait_lock, wait_unlock, wakeup, worker_one, worker_two, worker_wakes, r_wait, w_wait,
}

-- Points that `main` is past.
abbrev pub past_create : Role → Bool
past_create r_create = false
past_create _ = true

abbrev pub past_test : Role → Bool
past_test r_create = false
past_test r_lock = false
past_test r_test = false
past_test r_wait = false
past_test r_asleep = false
past_test r_relock = false
past_test _ = true

abbrev pub past_kill : Role → Bool
past_kill r_kill = false
past_kill r_unlock = false
past_kill r = past_test r

abbrev pub past_set : Role → Bool
past_set r_send_lock = false
past_set r_set = false
past_set r = past_kill r

abbrev pub past_signal : Role → Bool
past_signal r_signal = false
past_signal r = past_set r

abbrev pub main_asleep : Role → Bool
main_asleep r_asleep = true
main_asleep _ = false

abbrev pub main_holds : Role → Bool
main_holds r_test = true
main_holds r_wait = true
main_holds r_unlock = true
main_holds r_set = true
main_holds r_signal = true
main_holds r_send_unlock = true
main_holds _ = false

-- Points that the thread is past.
abbrev pub born : Worker → Bool
born unborn = false
born _ = true

abbrev pub masked : Worker → Bool
masked unborn = false
masked w_mask = false
masked _ = true

abbrev pub completed : Worker → Bool
completed w_lock = false
completed w_set = false
completed w = masked w

abbrev pub signalled : Worker → Bool
signalled w_signal = false
signalled w = completed w

abbrev pub told : Worker → Bool
told w_wait_unlock = true
told w_pending = true
told exited = true
told _ = false

abbrev pub worker_asleep : Worker → Bool
worker_asleep w_asleep = true
worker_asleep _ = false

abbrev pub worker_holds : Worker → Bool
worker_holds w_set = true
worker_holds w_signal = true
worker_holds w_unlock = true
worker_holds w_test = true
worker_holds w_wait = true
worker_holds w_wait_unlock = true
worker_holds _ = false

abbrev pub main_waits : Role → Bool
main_waits r_wait = true
main_waits _ = false

abbrev pub worker_waits : Worker → Bool
worker_waits w_wait = true
worker_waits _ = false

abbrev pub waits : Cond → Bool
waits nobody = false
waits _ = true

-- What a thread that has printed its mask has seen.
abbrev pub has_printed : Worker → Option Bool
has_printed exited = some true
has_printed _ = none

pub record Inv (c : Chan) : Type 0 where
  pub birth : born c.worker ≡ past_create c.main
  pub mask : c.blocked ≡ masked c.worker
  pub completion : c.block_completed ≡ completed c.worker
  pub tested : past_test c.main ≡ true → completed c.worker ≡ true
  pub delivery : c.pending ≡ past_kill c.main
  pub sent : c.sig_sent ≡ past_set c.main
  pub notified : told c.worker ≡ true → past_set c.main ≡ true
  pub alive : c.killed ≡ false
  pub seen : c.printed ≡ has_printed c.worker
  pub holder : c.mtx ≡ (main_holds c.main || worker_holds c.worker)
  pub exclusive : main_holds c.main && worker_holds c.worker ≡ false
  pub main_sleep : waits c.block_cond ≡ main_asleep c.main
  pub worker_sleep : waits c.sig_cond ≡ worker_asleep c.worker
  pub main_seen : main_waits c.main ≡ true → c.block_completed ≡ false
  pub worker_seen : worker_waits c.worker ≡ true → c.sig_sent ≡ false
  pub main_unwoken : c.block_cond ≡ sleeping → signalled c.worker ≡ false
  pub main_woken : c.block_cond ≡ chosen → completed c.worker ≡ true
  pub worker_unwoken : c.sig_cond ≡ sleeping → past_signal c.main ≡ false
  pub worker_woken : c.sig_cond ≡ chosen → past_set c.main ≡ true

created-Inv : Inv created
created-Inv = ground arith

MainMove-Inv : {c c' : Chan} → MainMove c c' → Inv c → Inv c'
MainMove-Inv (create e) i = ground arith
MainMove-Inv (MainMove.lock e free) i = ground arith
MainMove-Inv (MainMove.see_unset e unset) i = ground arith
MainMove-Inv (MainMove.sleep e) i = ground arith
MainMove-Inv (MainMove.wake e woken) i = ground arith
MainMove-Inv (MainMove.relock e free) i = ground arith
MainMove-Inv (MainMove.go_on e isset) i = ground arith
MainMove-Inv (MainMove.unlock e) i = ground arith
MainMove-Inv (kill e) i = ground arith
MainMove-Inv (send_lock e free) i = ground arith
MainMove-Inv (set_sent e) i = ground arith
MainMove-Inv (MainMove.signal e) i = ground arith
MainMove-Inv (send_unlock e) i = ground arith
MainMove-Inv (join e gone) i = ground arith

WorkerMove-Inv : {c c' : Chan} → WorkerMove c c' → Inv c → Inv c'
WorkerMove-Inv (WorkerMove.mask e) i = ground arith
WorkerMove-Inv (WorkerMove.lock e free) i = ground arith
WorkerMove-Inv (set_completed e) i = ground arith
WorkerMove-Inv (WorkerMove.signal e) i = ground arith
WorkerMove-Inv (WorkerMove.unlock e) i = ground arith
WorkerMove-Inv (wait_lock e free) i = ground arith
WorkerMove-Inv (WorkerMove.see_unset e unset) i = ground arith
WorkerMove-Inv (WorkerMove.sleep e) i = ground arith
WorkerMove-Inv (WorkerMove.wake e woken) i = ground arith
WorkerMove-Inv (WorkerMove.relock e free) i = ground arith
WorkerMove-Inv (WorkerMove.go_on e isset) i = ground arith
WorkerMove-Inv (wait_unlock e) i = ground arith
WorkerMove-Inv (print e) i = ground arith

Spurious-Inv : {c c' : Chan} → Spurious c c' → Inv c → Inv c'
Spurious-Inv (main_wakes e asleep) i = ground arith
Spurious-Inv (worker_wakes e asleep) i = ground arith

Move-Inv : {y y' : System} → Move y y' → Inv y.one × Inv y.two → Inv y'.one × Inv y'.two
Move-Inv (main_one turn mv) (i, j) = (MainMove-Inv mv i, j)
Move-Inv (main_two turn mv) (i, j) = (i, MainMove-Inv mv j)
Move-Inv (worker_one mv) (i, j) = (WorkerMove-Inv mv i, j)
Move-Inv (worker_two mv) (i, j) = (i, WorkerMove-Inv mv j)

Wakeup-Inv : {y y' : System} → Wakeup y y' → Inv y.one × Inv y.two → Inv y'.one × Inv y'.two
Wakeup-Inv (in_one w) (i, j) = (Spurious-Inv w i, j)
Wakeup-Inv (in_two w) (i, j) = (i, Spurious-Inv w j)

pub Run-Inv : {k s : ℕ} {y : System} → Run k s y → Inv y.one × Inv y.two
Run-Inv begin = (created-Inv, created-Inv)
Run-Inv (step r mv) = Move-Inv mv (Run-Inv r)
Run-Inv (wakeup r w) = Wakeup-Inv w (Run-Inv r)
