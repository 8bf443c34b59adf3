-- ===== src/Concurrency/ApproxCounter.antt =====
-- os-three-easy-pieces/concurrency/approximate_counter.c: a counter split over the processors. A call
-- holds the lock of its processor throughout, so the calls on one processor run one after another;
-- here all calls do, and the locks are left out.
use operating_systems_theory.Common.{
  ℕ, List, [], get_or, if◌then◌else◌, leb, replicate, set, suc, zero, ◌%◌, ◌+◌, ◌∷◌,
}
pub mod Accuracy
mod Examples

-- `NUMCPUS`
abbrev pub num_cpus : ℕ
num_cpus = 8

-- `counter_t`, for amounts that are not negative and sums within `int`, without its locks.
pub record Counter : Type 0 where
  pub global : ℕ
  pub local : List ℕ
  pub threshold : ℕ

pub init : ℕ → Counter
init threshold = record { global = 0; local = replicate num_cpus 0; threshold = threshold }

-- The part of `update` that is under the global lock, and the reset behind it.
pub flush : ℕ → Counter → Counter
flush cpu c = record c { global = c.global + get_or c.local cpu 0; local = set c.local cpu 0 }

pub add_local : ℕ → ℕ → Counter → Counter
add_local cpu amt c = record c { local = set c.local cpu (get_or c.local cpu 0 + amt) }

pub update : (thread_id amt : ℕ) → Counter → Counter
unfolding flush add_local
update thread_id amt c =
    let cpu = thread_id % num_cpus in
    let c' = add_local cpu amt c in
    if leb c'.threshold (get_or c'.local cpu 0) then flush cpu c' else c'

pub get : Counter → ℕ
get c = c.global

-- Calls of `update`, thread and amount, in the order in which they take their locks.
pub run : List (ℕ × ℕ) → Counter → Counter
run [] c = c
run ((t, a) ∷ calls) c = run calls (update t a c)

-- `worker`: `rounds` updates by 1.
pub worker : (rounds thread_id : ℕ) → List (ℕ × ℕ)
worker zero t = []
worker (suc n) t = (t, 1) ∷ worker n t
