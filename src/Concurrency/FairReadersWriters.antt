-- ===== src/Concurrency/FairReadersWriters.antt =====
-- os-three-easy-pieces/concurrency/sema/reader-writer-nostarve.c: the readers-writer lock with a
-- fourth semaphore, which a writer keeps from its arrival to its release. The semaphore `lock` of
-- the source is initialised and never used.
use operating_systems_theory.Common.{ℕ, ◌+◌, ◌-◌, ◌<◌, ◌≡◌, ◌≢◌, ◌⊎◌}
pub mod Safety
pub mod Fairness
mod Examples

-- `rwlock_t`, and the global `value`.
pub record RwLock : Type 0 where
  pub fair_lock : ℕ
  pub lock : ℕ
  pub writelock : ℕ
  pub readlock : ℕ
  pub readers : ℕ
  pub value : ℕ

-- `rwlock_init`
abbrev pub init : RwLock
init = record { fair_lock = 1; lock = 1; writelock = 1; readlock = 1; readers = 0; value = 0 }

-- Where a thread stands; each goes round its loop any number of times.
pub data Pc : Type 0 where
  -- `rwlock_acquire_readlock`
  r_start : Pc
  r_fair : Pc
  r_enter : Pc
  r_wait : Pc
  r_post : Pc
  r_post_fair : Pc
  r_read : Pc
  -- `rwlock_release_readlock`
  r_exit : Pc
  r_leave : Pc
  r_give : Pc
  r_post_last : Pc
  -- `rwlock_acquire_writelock`, the write and `rwlock_release_writelock`
  w_start : Pc
  w_fair : Pc
  w_write : Pc
  w_post : Pc
  w_post_fair : Pc

-- A step of one thread. A change of `readers` and the test that follows it, both under `readlock`,
-- are one step.
pub data Move (m : RwLock) : Pc → RwLock → Pc → Type 0 where
  take_fair : 0 < m.fair_lock → Move m r_start (record m { fair_lock = m.fair_lock - 1 }) r_fair
  take_lock : 0 < m.readlock → Move m r_fair (record m { readlock = m.readlock - 1 }) r_enter
  first_reader : m.readers + 1 ≡ 1 → Move m r_enter (record m { readers = m.readers + 1 }) r_wait
  more_readers : m.readers + 1 ≢ 1 → Move m r_enter (record m { readers = m.readers + 1 }) r_post
  take_write : 0 < m.writelock → Move m r_wait (record m { writelock = m.writelock - 1 }) r_post
  post_lock : Move m r_post (record m { readlock = m.readlock + 1 }) r_post_fair
  post_fair : Move m r_post_fair (record m { fair_lock = m.fair_lock + 1 }) r_read
  print : Move m r_read m r_exit
  retake_lock : 0 < m.readlock → Move m r_exit (record m { readlock = m.readlock - 1 }) r_leave
  last_reader : m.readers - 1 ≡ 0 → Move m r_leave (record m { readers = m.readers - 1 }) r_give
  other_readers :
      m.readers - 1 ≢ 0 → Move m r_leave (record m { readers = m.readers - 1 }) r_post_last
  give_write : Move m r_give (record m { writelock = m.writelock + 1 }) r_post_last
  repost_lock : Move m r_post_last (record m { readlock = m.readlock + 1 }) r_start
  writer_fair : 0 < m.fair_lock → Move m w_start (record m { fair_lock = m.fair_lock - 1 }) w_fair
  writer_take : 0 < m.writelock → Move m w_fair (record m { writelock = m.writelock - 1 }) w_write
  write : Move m w_write (record m { value = m.value + 1 }) w_post
  writer_post : Move m w_post (record m { writelock = m.writelock + 1 }) w_post_fair
  writer_post_fair : Move m w_post_fair (record m { fair_lock = m.fair_lock + 1 }) w_start

-- A thread that has not begun.
abbrev pub AtStart : Pc → Type 0
AtStart p = (p ≡ r_start) ⊎ (p ≡ w_start)

-- Between an acquire and its release.
abbrev pub reading : Pc → ℕ
reading r_read = 1
reading r_exit = 1
reading _ = 0

abbrev pub writing : Pc → ℕ
writing w_write = 1
writing w_post = 1
writing _ = 0

-- A reader that has passed `fair_lock` and is not inside yet.
abbrev pub entering : Pc → ℕ
entering r_fair = 1
entering r_enter = 1
entering r_wait = 1
entering r_post = 1
entering r_post_fair = 1
entering _ = 0

-- A writer that has passed `fair_lock` and waits for the readers inside to leave.
abbrev pub claiming : Pc → ℕ
claiming w_fair = 1
claiming _ = 0
