-- ===== src/Concurrency/ReadersWriters.antt =====
-- os-three-easy-pieces/concurrency/sema/reader-writer.c: a lock that many readers or one writer
-- hold, from two semaphores.
use operating_systems_theory.Common.{ℕ, ◌+◌, ◌-◌, ◌<◌, ◌≡◌, ◌≢◌, ◌⊎◌}
pub mod Safety
mod Examples

-- `rwlock_t`, and the global `value` that the writers count up.
pub record RwLock : Type 0 where
  pub lock : ℕ
  pub writelock : ℕ
  pub readers : ℕ
  pub value : ℕ

-- `rwlock_init`
abbrev pub init : RwLock
init = record { lock = 1; writelock = 1; readers = 0; value = 0 }

-- Where a thread stands. A reader or a writer goes round its loop any number of times.
pub data Pc : Type 0 where
  -- `rwlock_acquire_readlock`
  r_start : Pc
  r_enter : Pc
  r_wait : Pc
  r_post : Pc
  r_read : Pc
  -- `rwlock_release_readlock`
  r_exit : Pc
  r_leave : Pc
  r_give : Pc
  r_post_last : Pc
  -- `rwlock_acquire_writelock`, the write and `rwlock_release_writelock`
  w_start : Pc
  w_write : Pc
  w_post : Pc

-- A step of one thread. `sem_wait` moves when the count is above 0. A change of `readers` and the
-- test that follows it, both under `lock`, are one step.
pub data Move (m : RwLock) : Pc → RwLock → Pc → Type 0 where
  take_lock : 0 < m.lock → Move m r_start (record m { lock = m.lock - 1 }) r_enter
  first_reader : m.readers + 1 ≡ 1 → Move m r_enter (record m { readers = m.readers + 1 }) r_wait
  more_readers : m.readers + 1 ≢ 1 → Move m r_enter (record m { readers = m.readers + 1 }) r_post
  take_write : 0 < m.writelock → Move m r_wait (record m { writelock = m.writelock - 1 }) r_post
  post_lock : Move m r_post (record m { lock = m.lock + 1 }) r_read
  print : Move m r_read m r_exit
  retake_lock : 0 < m.lock → Move m r_exit (record m { lock = m.lock - 1 }) r_leave
  last_reader : m.readers - 1 ≡ 0 → Move m r_leave (record m { readers = m.readers - 1 }) r_give
  other_readers :
      m.readers - 1 ≢ 0 → Move m r_leave (record m { readers = m.readers - 1 }) r_post_last
  give_write : Move m r_give (record m { writelock = m.writelock + 1 }) r_post_last
  repost_lock : Move m r_post_last (record m { lock = m.lock + 1 }) r_start
  writer_take : 0 < m.writelock → Move m w_start (record m { writelock = m.writelock - 1 }) w_write
  write : Move m w_write (record m { value = m.value + 1 }) w_post
  writer_post : Move m w_post (record m { writelock = m.writelock + 1 }) w_start

-- A thread that has not begun.
abbrev pub AtStart : Pc → Type 0
AtStart p = (p ≡ r_start) ⊎ (p ≡ w_start)

-- Between an acquire and its release.
abbrev pub reading : Pc → ℕ
reading r_read = 1
reading r_exit = 1
reading _ = 0

abbrev pub writing : Pc → ℕ
writing w_write = 1
writing w_post = 1
writing _ = 0
