-- ===== src/Concurrency/Increment.antt =====
-- linux-api-kerrisk/POSIXthreads-sync/thread_incr.c: threads that count one global up with no lock.
use operating_systems_theory.Common.{ℕ, suc, ◌+◌}
pub mod Races
mod Examples

-- Where `threadFunc` stands: `left` rounds to go, `loc` in hand. `glob` is the shared memory; the
-- `printf` at the head of a round only reads it.
pub data Pc : Type 0 where
  head : (left : ℕ) → Pc
  loaded : (left loc : ℕ) → Pc
  counted : (left loc : ℕ) → Pc

pub data Move (glob : ℕ) : Pc → ℕ → Pc → Type 0 where
  load : {k : ℕ} → Move glob (head (suc k)) glob (loaded k glob)
  count : {k loc : ℕ} → Move glob (loaded k loc) glob (counted k (loc + 1))
  store : {k loc : ℕ} → Move glob (counted k loc) loc (head k)

-- The threads as `main` creates them.
abbrev pub created : ℕ → ℕ → Pc
created loops _ = head loops

-- Rounds whose store is still to come.
abbrev pub unstored : Pc → ℕ
unstored (head left) = left
unstored (loaded left _) = suc left
unstored (counted left _) = suc left
