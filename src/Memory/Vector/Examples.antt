-- ===== src/Memory/Vector/Examples.antt =====
-- vector.c: the vector of `main` grows at its third element.
use operating_systems_theory.Common.{[], refl, ◌*◌, ◌<◌, ◌∷◌, ◌≡◌}
use operating_systems_theory.Memory.Vector.{
  Vector, grown, int_size, main_vector, overflow, push_back, push_back-overflow, pushed, reserve,
}

abbrev two_stored : Vector
two_stored = record main_vector { stored = 1 ∷ 2 ∷ []; size = 2 }

push_back-overflow_test :
    (w : Vector) × (push_back two_stored 3 ≡ overflow w) × (w.bytes < int_size * w.size)
push_back-overflow_test = push_back-overflow two_stored 3 refl

push_back_test : push_back (record main_vector { stored = 1 ∷ []; size = 1 }) 2 ≡ pushed two_stored
unfolding push_back reserve grown
push_back_test = refl
