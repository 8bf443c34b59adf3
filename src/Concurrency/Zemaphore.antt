-- ===== src/Concurrency/Zemaphore.antt =====
-- os-three-easy-pieces/concurrency/sema/zemaphore.c: a semaphore from a mutex and a condition
-- variable.
use operating_systems_theory.Common.{ℕ, Bool, false, true, ◌+◌, ◌-◌, ◌<◌, ◌≡◌, ◌≤◌, ◌⊎◌}
pub mod Safety
mod Examples

-- `zem_t`. Of the condition variable: how many threads sleep on it, and how many of these a signal
-- has chosen to wake.
pub record Zem : Type 0 where
  pub value : ℕ
  pub held : Bool
  pub sleepers : ℕ
  pub wakes : ℕ

-- `zem_init`
abbrev pub init : ℕ → Zem
init v = record { value = v; held = false; sleepers = 0; wakes = 0 }

-- Where a thread stands in its one call of `zem_wait` or of `zem_post`.
pub data Pc : Type 0 where
  wait_start : Pc
  wait_test : Pc
  wait_about : Pc
  wait_asleep : Pc
  wait_relock : Pc
  wait_load : Pc
  wait_store : ℕ → Pc
  wait_unlock : Pc
  wait_done : Pc
  post_start : Pc
  post_load : Pc
  post_store : ℕ → Pc
  post_signal : Pc
  post_unlock : Pc
  post_done : Pc

-- A step of one thread. The test of the value, the loads and stores of `++` and `--`, and the start
-- of `pthread_cond_wait` are steps of their own. `pthread_cond_wait` gives the mutex back and sleeps in
-- one step, may wake with no signal, and takes the mutex again; a signal with no sleeper left to choose
-- is lost.
pub data Move (z : Zem) : Pc → Zem → Pc → Type 0 where
  lock_wait : z.held ≡ false → Move z wait_start (record z { held = true }) wait_test
  see_none : z.value ≤ 0 → Move z wait_test z wait_about
  sleep : Move z wait_about (record z { held = false; sleepers = z.sleepers + 1 }) wait_asleep
  see_unit : 0 < z.value → Move z wait_test z wait_load
  load_unit : Move z wait_load z (wait_store z.value)
  take_unit : {v : ℕ} → Move z (wait_store v) (record z { value = v - 1 }) wait_unlock
  wake :
      0 < z.wakes
      → Move z wait_asleep (record z { sleepers = z.sleepers - 1; wakes = z.wakes - 1 }) wait_relock
  spurious :
      z.wakes < z.sleepers → Move z wait_asleep (record z { sleepers = z.sleepers - 1 }) wait_relock
  relock : z.held ≡ false → Move z wait_relock (record z { held = true }) wait_test
  unlock_wait : Move z wait_unlock (record z { held = false }) wait_done
  lock_post : z.held ≡ false → Move z post_start (record z { held = true }) post_load
  load_post : Move z post_load z (post_store z.value)
  increment : {v : ℕ} → Move z (post_store v) (record z { value = v + 1 }) post_signal
  signal : z.wakes < z.sleepers → Move z post_signal (record z { wakes = z.wakes + 1 }) post_unlock
  signal_lost : z.sleepers ≤ z.wakes → Move z post_signal z post_unlock
  unlock_post : Move z post_unlock (record z { held = false }) post_done

-- A thread that has not begun its call.
abbrev pub AtStart : Pc → Type 0
AtStart p = (p ≡ wait_start) ⊎ (p ≡ post_start)

-- A `zem_wait` that has taken its unit, and a `zem_post` that has added its.
abbrev pub taken : Pc → ℕ
taken wait_unlock = 1
taken wait_done = 1
taken _ = 0

abbrev pub added : Pc → ℕ
added post_signal = 1
added post_unlock = 1
added post_done = 1
added _ = 0

-- A thread that will still test the value, is about to take a unit, or will signal a sleeper.
abbrev pub on_the_way : Pc → ℕ
on_the_way wait_test = 1
on_the_way wait_load = 1
on_the_way (wait_store _) = 1
on_the_way wait_relock = 1
on_the_way post_signal = 1
on_the_way _ = 0
