-- ===== src/Files/Dups/Examples.antt =====
-- dups.c with descriptors 0 and 2 open, out of four.
use operating_systems_theory.Common.{
  ℕ, List, Option, [], none, some, refl, ◌∷◌, ◌≡◌, ◌≤◌, ◌↔◌, true, arith,
}
use operating_systems_theory.Common.Int.{pos}
use operating_systems_theory.Files.Dups.{dup2, all_open, dup2-lowest, lowest}

abbrev two_open : List (Option ℕ)
two_open = some 7 ∷ none ∷ some 8 ∷ none ∷ []

dup2-lowest_example :
    (dup2 two_open 0 2 ≡ record { newfd = pos 1; fds = some 7 ∷ some 7 ∷ none ∷ none ∷ [] })
    × (1 ≤ 2)
    × ((◌≡◌ {A = ℕ} 1 2) ↔ (all_open 2 two_open ≡ true))
unfolding lowest
dup2-lowest_example = dup2-lowest two_open 0 2 7 refl (λ e. omega arith) (omega arith)
