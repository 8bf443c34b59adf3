-- ===== src/Concurrency/Buffer.antt =====
-- os-three-easy-pieces/concurrency/buffer.c: a ring of ten places between producers and consumers.
use operating_systems_theory.Common.{
  ℕ, List, [], get_or, replicate, set, ◌%◌, ◌++◌, ◌+◌, ◌-◌, ◌<◌, ◌∷◌, ◌≡◌, ◌⊎◌,
}
pub mod Ring
pub mod Steps
pub mod Safety
mod Examples

-- `MAX`
abbrev pub max : ℕ
max = 10

-- The globals: the semaphores, the ring and its two indices. `produced` and `consumed` are what has
-- been put and got so far, in order.
pub record Buffer : Type 0 where
  pub empty : ℕ
  pub full : ℕ
  pub mutex : ℕ
  pub buffer : List ℕ
  pub fill : ℕ
  pub use_at : ℕ
  pub produced : List ℕ
  pub consumed : List ℕ

-- The state that `main` sets up.
abbrev pub init : Buffer
init = record {
  empty = max;
  full = 0;
  mutex = 1;
  buffer = replicate max 0;
  fill = 0;
  use_at = 0;
  produced = [];
  consumed = [];
}

-- Where a thread stands: a producer in its round `i`, or a consumer. `fill` and `use` are loaded once for
-- the place in the ring and once for their increment.
pub data Pc : Type 0 where
  p_wait_empty : ℕ → Pc
  p_wait_mutex : ℕ → Pc
  p_load_place : ℕ → Pc
  p_put : ℕ → (place : ℕ) → Pc
  p_load_fill : ℕ → Pc
  p_store_fill : ℕ → (old : ℕ) → Pc
  p_post_mutex : ℕ → Pc
  p_post_full : ℕ → Pc
  c_wait_full : Pc
  c_wait_mutex : Pc
  c_load_place : Pc
  c_get : (place : ℕ) → Pc
  c_load_use : ℕ → Pc
  c_store_use : ℕ → (old : ℕ) → Pc
  c_post_mutex : ℕ → Pc
  c_post_empty : ℕ → Pc
  c_print : ℕ → Pc

-- `buffer[fill] = value`
abbrev pub put : (value place : ℕ) → Buffer → Buffer
put value place b = record b {
  buffer = set b.buffer place value;
  produced = b.produced ++ value ∷ [];
}

-- `int tmp = buffer[use]`
abbrev pub tmp : (place : ℕ) → Buffer → ℕ
tmp place b = get_or b.buffer place 0

abbrev pub get : (place : ℕ) → Buffer → Buffer
get place b = record b { consumed = b.consumed ++ tmp place b ∷ [] }

-- `(i + 1) % MAX`
abbrev pub next_place : ℕ → ℕ
next_place i = (i + 1) % max

-- A step of one thread; a thread that has made its rounds just never moves.
pub data Move (b : Buffer) : Pc → Buffer → Pc → Type 0 where
  take_empty :
      {i : ℕ}
      → 0 < b.empty
      → Move b (p_wait_empty i) (record b { empty = b.empty - 1 }) (p_wait_mutex i)
  p_lock :
      {i : ℕ}
      → 0 < b.mutex
      → Move b (p_wait_mutex i) (record b { mutex = b.mutex - 1 }) (p_load_place i)
  load_put_place : {i : ℕ} → Move b (p_load_place i) b (p_put i b.fill)
  produce : {i place : ℕ} → Move b (p_put i place) (put i place b) (p_load_fill i)
  load_fill : {i : ℕ} → Move b (p_load_fill i) b (p_store_fill i b.fill)
  store_fill :
      {i old : ℕ}
      → Move b (p_store_fill i old) (record b { fill = next_place old }) (p_post_mutex i)
  p_unlock : {i : ℕ} → Move b (p_post_mutex i) (record b { mutex = b.mutex + 1 }) (p_post_full i)
  post_full :
      {i : ℕ} → Move b (p_post_full i) (record b { full = b.full + 1 }) (p_wait_empty (i + 1))
  take_full : 0 < b.full → Move b c_wait_full (record b { full = b.full - 1 }) c_wait_mutex
  c_lock : 0 < b.mutex → Move b c_wait_mutex (record b { mutex = b.mutex - 1 }) c_load_place
  load_get_place : Move b c_load_place b (c_get b.use_at)
  consume : {place : ℕ} → Move b (c_get place) (get place b) (c_load_use (tmp place b))
  load_use : {v : ℕ} → Move b (c_load_use v) b (c_store_use v b.use_at)
  store_use :
      {v old : ℕ}
      → Move b (c_store_use v old) (record b { use_at = next_place old }) (c_post_mutex v)
  c_unlock : {v : ℕ} → Move b (c_post_mutex v) (record b { mutex = b.mutex + 1 }) (c_post_empty v)
  post_empty : {v : ℕ} → Move b (c_post_empty v) (record b { empty = b.empty + 1 }) (c_print v)
  print : {v : ℕ} → Move b (c_print v) b c_wait_full

-- A thread that has not begun.
abbrev pub AtStart : Pc → Type 0
AtStart p = (p ≡ p_wait_empty 0) ⊎ (p ≡ c_wait_full)

-- Inside the part that `mutex` guards.
abbrev pub inside : Pc → ℕ
inside (p_load_place _) = 1
inside (p_put _ _) = 1
inside (p_load_fill _) = 1
inside (p_store_fill _ _) = 1
inside (p_post_mutex _) = 1
inside c_load_place = 1
inside (c_get _) = 1
inside (c_load_use _) = 1
inside (c_store_use _ _) = 1
inside (c_post_mutex _) = 1
inside _ = 0
