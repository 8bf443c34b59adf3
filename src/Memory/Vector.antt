-- ===== src/Memory/Vector.antt =====
-- os-three-easy-pieces/mem_api/vector.c: a growing array of `int`.
use operating_systems_theory.Common.{
  ℕ, List, [], arith, if◌then◌else◌, leb, ◌*◌, ◌++◌, ◌+◌, ◌/◌, ◌<◌, ◌==◌, ◌∷◌, ◌≡◌, ◌≢◌, ◌≤◌,
}
mod Examples

-- `struct vector_t`: of the block behind `data`, its size in bytes and the values stored so far.
pub record Vector : Type 0 where
  pub bytes : ℕ
  pub stored : List ℕ
  pub capacity : ℕ
  pub size : ℕ

-- `sizeof(int)`
abbrev pub int_size : ℕ
int_size = 4

-- `new_capacity = v->capacity * 1.25`, cut to an `int`.
pub grown : ℕ → ℕ
grown capacity = capacity * 5 / 4

-- A write behind the block is an overflow.
pub data Push : Type 0 where
  pushed : Vector → Push
  overflow : Vector → Push

-- The first half of `push_back`: `realloc` to `new_capacity` bytes, which succeeds.
reserve : Vector → Vector
unfolding grown
reserve v =
    if v.size + 1 == v.capacity
    then record v { bytes = grown v.capacity; capacity = grown v.capacity }
    else v

pub push_back : Vector → ℕ → Push
unfolding reserve
push_back v val =
    let w = reserve v in
    let w' = record w { stored = w.stored ++ val ∷ []; size = w.size + 1 } in
    if leb (int_size * (w.size + 1)) w.bytes then pushed w' else overflow w'

-- The vector of `main`.
abbrev pub main_vector : Vector
main_vector = record { bytes = int_size * 10; stored = []; capacity = 3; size = 0 }

-- `push_back` on a vector that it does not grow stores the value and leaves the block, if the block has
-- room for one more `int`.
pub push_back-stored :
    (v : Vector) (val : ℕ)
    → v.size + 1 ≢ v.capacity
    → int_size * (v.size + 1) ≤ v.bytes
    → push_back v val ≡ pushed (record v { stored = v.stored ++ val ∷ []; size = v.size + 1 })
unfolding push_back
push_back-stored v val ne room = ground arith

-- Whenever `push_back` grows the vector it writes behind the block: the new capacity is given to
-- `realloc` as a number of bytes.
pub push_back-overflow :
    (v : Vector) (val : ℕ)
    → v.size + 1 ≡ v.capacity
    → (w : Vector) × (push_back v val ≡ overflow w) × (w.bytes < int_size * w.size)
unfolding push_back
push_back-overflow v val full = (
  record v {
    bytes = v.capacity * 5 / 4;
    capacity = v.capacity * 5 / 4;
    stored = v.stored ++ val ∷ [];
    size = v.size + 1;
  },
  ground arith,
  omega arith,
)
