-- ===== src/Concurrency/Counter.antt =====
-- os-three-easy-pieces/concurrency/counter.c: a counter behind a mutex, and threads that count it
-- up to a limit.
use operating_systems_theory.Common.{ℕ, ◌≡◌, Bool, true, false}
use operating_systems_theory.Common.Int.{ℤ, pos, succ, pred, below}
pub mod Safety
mod Examples

-- `counter_t`; `mut` says whether the mutex is held.
pub record Counter : Type 0 where
  pub value : ℤ
  pub mut : Bool

abbrev pub init : Counter
init = record { value = pos 0; mut = false }

-- A whole call made while the mutex is free: it is taken and given back.
pub inc : Counter → ℤ × Counter
inc c = let v = succ c.value in (v, record c { value = v })

pub dec : Counter → ℤ × Counter
dec c = let v = pred c.value in (v, record c { value = v })

pub get : Counter → ℤ × Counter
get c = (c.value, c)

-- `LIMIT`
abbrev pub limit : ℕ
limit = 1_000_000

-- Where a thread stands in `incloop`; `++c->value` is a load and a store.
pub data Pc : Type 0 where
  at_lock : Pc
  at_test : Pc
  at_load : Pc
  at_store : ℤ → Pc
  at_unlock : Pc
  at_break : Pc
  finished : Pc

-- One step of one thread that counts up to `top`; the program's `top` is `limit`.
pub data Move (top : ℕ) (c : Counter) : Pc → Counter → Pc → Type 0 where
  lock : c.mut ≡ false → Move top c at_lock (record c { mut = true }) at_test
  stop : below c.value top ≡ false → Move top c at_test c at_break
  go : below c.value top ≡ true → Move top c at_test c at_load
  load : Move top c at_load c (at_store c.value)
  store : {v : ℤ} → Move top c (at_store v) (record c { value = succ v }) at_unlock
  unlock : Move top c at_unlock (record c { mut = false }) at_lock
  leave : Move top c at_break (record c { mut = false }) finished

-- The threads as `test_for_n_threads` creates them.
abbrev pub created : ℕ → Pc
created _ = at_lock

-- Between the lock and the unlock.
abbrev pub holds : Pc → ℕ
holds at_lock = 0
holds finished = 0
holds _ = 1

abbrev pub exited : Pc → ℕ
exited at_break = 1
exited finished = 1
exited _ = 0
