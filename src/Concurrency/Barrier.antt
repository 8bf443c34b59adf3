-- ===== src/Concurrency/Barrier.antt =====
-- os-three-easy-pieces/concurrency/sema/barrier.c: a barrier from two semaphores and a count.
use operating_systems_theory.Common.{ℕ, suc, ◌+◌, ◌-◌, ◌<◌, ◌≡◌, ◌≢◌}
pub mod Safety
pub mod Progress
mod Examples

-- `barrier_t`, but for the threshold, which never changes.
pub record Barrier : Type 0 where
  pub sem : ℕ
  pub lock : ℕ
  pub waiters : ℕ

-- `barrier_init`
abbrev pub init : Barrier
init = record { sem = 0; lock = 1; waiters = 0 }

-- Where a thread stands in `barrier`; `posting k` has `k` rounds of the posting loop left.
pub data Pc : Type 0 where
  before : Pc
  counting : Pc
  posting : ℕ → Pc
  unlocking_last : Pc
  unlocking : Pc
  waiting : Pc
  after : Pc

-- A step of one thread at a barrier of `threshold` threads. The count and the test of it, both under
-- `lock`, are one step.
pub data Move (threshold : ℕ) (b : Barrier) : Pc → Barrier → Pc → Type 0 where
  lock : 0 < b.lock → Move threshold b before (record b { lock = b.lock - 1 }) counting
  last :
      b.waiters + 1 ≡ threshold
      → Move threshold b counting (record b { waiters = b.waiters + 1 }) (posting threshold)
  early :
      b.waiters + 1 ≢ threshold
      → Move threshold b counting (record b { waiters = b.waiters + 1 }) unlocking
  post : {k : ℕ} → Move threshold b (posting (suc k)) (record b { sem = b.sem + 1 }) (posting k)
  reset : {k : ℕ} → k ≡ 0 → Move threshold b (posting k) (record b { waiters = 0 }) unlocking_last
  unlock_last : Move threshold b unlocking_last (record b { lock = b.lock + 1 }) after
  unlock : Move threshold b unlocking (record b { lock = b.lock + 1 }) waiting
  pass : 0 < b.sem → Move threshold b waiting (record b { sem = b.sem - 1 }) after

-- The threads as `main` creates them.
abbrev pub created : ℕ → Pc
created _ = before

-- Not counted yet.
abbrev pub uncounted : Pc → ℕ
uncounted before = 1
uncounted counting = 1
uncounted _ = 0

abbrev pub passed : Pc → ℕ
passed after = 1
passed _ = 0
