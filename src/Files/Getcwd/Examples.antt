-- ===== src/Files/Getcwd/Examples.antt =====
-- getcwd.c in "/b", where "/" has "a" and "b".
use operating_systems_theory.Common.{[], arith, inl, inr, refl, some, ◌∷◌, ◌≡◌}
use operating_systems_theory.Files.Getcwd.{
  World, getcwd, getcwd-absolute, At, top, below, path_max, absolute, returned, is_dot, same,
}

abbrev two_dirs : World
two_dirs = record {
  root = (1, 2);
  parent = λ c. (1, 2);
  entries =
      λ c. (b'.' ∷ [], some (1, 2)) ∷ (b'a' ∷ [], some (1, 3)) ∷ (b'b' ∷ [], some (1, 4)) ∷ [];
}

at_b : At two_dirs 1 (1, 4) (b'/' ∷ b'b' ∷ [])
unfolding same is_dot
at_b =
    below [] (b'b' ∷ []) ((b'.' ∷ [], some (1, 2)) ∷ (b'a' ∷ [], some (1, 3)) ∷ []) [] top refl refl
      (inl refl, (inr ((1, 3), refl, refl), tt)) refl

getcwd-absolute_example : getcwd 2 two_dirs (1, 4) path_max ≡ returned (absolute (b'/' ∷ b'b' ∷ []))
getcwd-absolute_example = getcwd-absolute two_dirs 2 at_b (omega arith) (omega arith)
