-- ===== src/Concurrency/SignalMask.antt =====
-- linux-api-kerrisk/POSIXthreads-further-details/independant_thrd_sigmask.c: two threads that block a
-- signal each, and `main`, which sends each its signal once it is blocked. The code for the two threads
-- is the same over two sets of variables, so a `Chan` holds what belongs to one of them.
use operating_systems_theory.Common.{
  ℕ, Bool, Option, false, none, not, some, suc, true, ◌<◌, ◌≡◌, ◌≤◌,
}
pub mod Invariant
pub mod Safety
pub mod Progress
pub mod Termination
mod Examples

-- Where `main` stands with one thread. The lines of `main` come in five blocks.
pub data Role : Type 0 where
  -- `pthread_create`
  r_create : Role
  -- the wait for `thrd1_SigBlockCompleted`
  r_lock : Role
  r_test : Role
  -- the flag was found unset, and `pthread_cond_wait` is next
  r_wait : Role
  r_asleep : Role
  r_relock : Role
  r_unlock : Role
  -- `pthread_kill`
  r_kill : Role
  -- `thrd1_SigSent` is set
  r_send_lock : Role
  r_set : Role
  r_signal : Role
  r_send_unlock : Role
  -- `pthread_join`
  r_join : Role
  r_done : Role

-- Where the thread stands in `thrdFunc1`.
pub data Worker : Type 0 where
  unborn : Worker
  w_mask : Worker
  w_lock : Worker
  w_set : Worker
  w_signal : Worker
  w_unlock : Worker
  w_wait_lock : Worker
  w_test : Worker
  w_wait : Worker
  w_asleep : Worker
  w_relock : Worker
  w_wait_unlock : Worker
  w_pending : Worker
  exited : Worker

-- A condition variable, which one thread at most waits on.
pub data Cond : Type 0 where
  nobody : Cond
  sleeping : Cond
  chosen : Cond

-- The variables for one thread: its mutex, conditions and flags; whether it blocks its signal, has it
-- pending, and was killed by it; and whether the mask that it printed has it.
pub record Chan : Type 0 where
  pub main : Role
  pub worker : Worker
  pub mtx : Bool
  pub block_cond : Cond
  pub sig_cond : Cond
  pub block_completed : Bool
  pub sig_sent : Bool
  pub blocked : Bool
  pub pending : Bool
  pub killed : Bool
  pub printed : Option Bool

abbrev pub created : Chan
created = record {
  main = r_create;
  worker = unborn;
  mtx = false;
  block_cond = nobody;
  sig_cond = nobody;
  block_completed = false;
  sig_sent = false;
  blocked = false;
  pending = false;
  killed = false;
  printed = none;
}

-- `pthread_cond_signal`
abbrev pub notify : Cond → Cond
notify nobody = nobody
notify sleeping = chosen
notify chosen = chosen

-- A step of `main` for one thread. The test of a flag and the `pthread_cond_wait` behind it are two
-- steps; `pthread_cond_wait` gives the mutex back and sleeps in one. A signal that the thread does not block kills the process.
pub data MainMove (c : Chan) : Chan → Type 0 where
  create : c.main ≡ r_create → MainMove c (record c { main = r_lock; worker = w_mask })
  lock : c.main ≡ r_lock → c.mtx ≡ false → MainMove c (record c { main = r_test; mtx = true })
  see_unset : c.main ≡ r_test → c.block_completed ≡ false → MainMove c (record c { main = r_wait })
  sleep :
      c.main ≡ r_wait
      → MainMove c (record c { main = r_asleep; mtx = false; block_cond = sleeping })
  wake :
      c.main ≡ r_asleep
      → c.block_cond ≡ chosen
      → MainMove c (record c { main = r_relock; block_cond = nobody })
  relock : c.main ≡ r_relock → c.mtx ≡ false → MainMove c (record c { main = r_test; mtx = true })
  go_on : c.main ≡ r_test → c.block_completed ≡ true → MainMove c (record c { main = r_unlock })
  unlock : c.main ≡ r_unlock → MainMove c (record c { main = r_kill; mtx = false })
  kill :
      c.main ≡ r_kill
      → MainMove c (record c { main = r_send_lock; pending = c.blocked; killed = not c.blocked })
  send_lock :
      c.main ≡ r_send_lock → c.mtx ≡ false → MainMove c (record c { main = r_set; mtx = true })
  set_sent : c.main ≡ r_set → MainMove c (record c { main = r_signal; sig_sent = true })
  signal :
      c.main ≡ r_signal
      → MainMove c (record c { main = r_send_unlock; sig_cond = notify c.sig_cond })
  send_unlock : c.main ≡ r_send_unlock → MainMove c (record c { main = r_join; mtx = false })
  join : c.main ≡ r_join → c.worker ≡ exited → MainMove c (record c { main = r_done })

-- A step of the thread.
pub data WorkerMove (c : Chan) : Chan → Type 0 where
  mask : c.worker ≡ w_mask → WorkerMove c (record c { worker = w_lock; blocked = true })
  lock : c.worker ≡ w_lock → c.mtx ≡ false → WorkerMove c (record c { worker = w_set; mtx = true })
  set_completed :
      c.worker ≡ w_set → WorkerMove c (record c { worker = w_signal; block_completed = true })
  signal :
      c.worker ≡ w_signal
      → WorkerMove c (record c { worker = w_unlock; block_cond = notify c.block_cond })
  unlock : c.worker ≡ w_unlock → WorkerMove c (record c { worker = w_wait_lock; mtx = false })
  wait_lock :
      c.worker ≡ w_wait_lock
      → c.mtx ≡ false
      → WorkerMove c (record c { worker = w_test; mtx = true })
  see_unset : c.worker ≡ w_test → c.sig_sent ≡ false → WorkerMove c (record c { worker = w_wait })
  sleep :
      c.worker ≡ w_wait
      → WorkerMove c (record c { worker = w_asleep; mtx = false; sig_cond = sleeping })
  wake :
      c.worker ≡ w_asleep
      → c.sig_cond ≡ chosen
      → WorkerMove c (record c { worker = w_relock; sig_cond = nobody })
  relock :
      c.worker ≡ w_relock → c.mtx ≡ false → WorkerMove c (record c { worker = w_test; mtx = true })
  go_on : c.worker ≡ w_test → c.sig_sent ≡ true → WorkerMove c (record c { worker = w_wait_unlock })
  wait_unlock :
      c.worker ≡ w_wait_unlock → WorkerMove c (record c { worker = w_pending; mtx = false })
  print :
      c.worker ≡ w_pending → WorkerMove c (record c { worker = exited; printed = some c.pending })

-- `pthread_cond_wait` may return with no signal.
pub data Spurious (c : Chan) : Chan → Type 0 where
  main_wakes :
      c.main ≡ r_asleep
      → c.block_cond ≡ sleeping
      → Spurious c (record c { main = r_relock; block_cond = nobody })
  worker_wakes :
      c.worker ≡ w_asleep
      → c.sig_cond ≡ sleeping
      → Spurious c (record c { worker = w_relock; sig_cond = nobody })

-- The blocks of `main` in order; in each, it deals with the first thread and then with the second.
abbrev pub block : Role → ℕ
block r_create = 0
block r_kill = 2
block r_send_lock = 3
block r_set = 3
block r_signal = 3
block r_send_unlock = 3
block r_join = 4
block r_done = 5
block _ = 1

pub record System : Type 0 where
  pub one : Chan
  pub two : Chan

abbrev pub started : System
started = record { one = created; two = created }

-- A step of the program, with no spurious wake-up.
pub data Move (y : System) : System → Type 0 where
  main_one :
      {c : Chan}
      → block y.one.main ≤ block y.two.main
      → MainMove y.one c
      → Move y (record y { one = c })
  main_two :
      {c : Chan}
      → block y.two.main < block y.one.main
      → MainMove y.two c
      → Move y (record y { two = c })
  worker_one : {c : Chan} → WorkerMove y.one c → Move y (record y { one = c })
  worker_two : {c : Chan} → WorkerMove y.two c → Move y (record y { two = c })

pub data Wakeup (y : System) : System → Type 0 where
  in_one : {c : Chan} → Spurious y.one c → Wakeup y (record y { one = c })
  in_two : {c : Chan} → Spurious y.two c → Wakeup y (record y { two = c })

-- A run with so many steps and so many spurious wake-ups among them.
pub data Run : (moves wakeups : ℕ) → System → Type 0 where
  begin : Run 0 0 started
  step : {k s : ℕ} {y y' : System} → Run k s y → Move y y' → Run (suc k) s y'
  wakeup : {k s : ℕ} {y y' : System} → Run k s y → Wakeup y y' → Run k (suc s) y'
