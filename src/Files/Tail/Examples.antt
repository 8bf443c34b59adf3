-- ===== src/Files/Tail/Examples.antt =====
-- tail.c on a file of three lines.
use operating_systems_theory.Common.Int.{ℤ, pos, negsuc}
use operating_systems_theory.Common.{ℕ, List, [], drop, false, refl, some, ◌∷◌, ◌≡◌}
use operating_systems_theory.Files.Tail.{
  Strtol, options, negative, lines, usage, tail, scan, seek_back,
}
use operating_systems_theory.Files.Tail.Lines.{IsStart, tail-IsStart}

-- "a\nb\nc\n"
abbrev three_lines : List ℕ
three_lines = b'a' ∷ b'\n' ∷ b'b' ∷ b'\n' ∷ b'c' ∷ b'\n' ∷ []

tail-IsStart_example :
    (at : ℕ) × (tail three_lines 2 ≡ some (drop at three_lines)) × IsStart three_lines 2 at
tail-IsStart_example = tail-IsStart three_lines 2

tail_test : tail three_lines 2 ≡ some (drop 2 three_lines)
unfolding tail scan seek_back
tail_test = refl

abbrev converted : ℤ → Strtol
converted n = record { value = n; out_of_range = false; no_digits = false }

options_test :
    (options 2 (converted (pos 3)) ≡ lines 10)
    × (options 4 (converted (pos 3)) ≡ lines 3)
    × (options 4 (converted (negsuc 3)) ≡ negative)
    × (options 3 (converted (pos 3)) ≡ usage)
unfolding options
options_test = (refl, refl, refl, refl)
