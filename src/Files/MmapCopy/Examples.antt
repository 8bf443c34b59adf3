-- ===== src/Files/MmapCopy/Examples.antt =====
-- cp.c with a source of two bytes and a destination of three.
use operating_systems_theory.Common.{[], refl, true, ◌∷◌, ◌≡◌, Bool, false}
use operating_systems_theory.Common.Text.{Text}
use operating_systems_theory.Files.MmapCopy.{
  main, Call, close_dst, contents, failed, ftruncate, main-contents, mmap_src,
}

abbrev src : Text
src = b'h' ∷ b'i' ∷ []

abbrev dst : Text
dst = b'o' ∷ b'l' ∷ b'd' ∷ []

main_test : (main 3 (λ call. true) src dst).dst ≡ src
unfolding main
main_test = refl

-- `close` fails.
abbrev but_close : Call → Bool
but_close close_dst = false
but_close _ = true

main-contents_example : (main 3 but_close src dst).dst ≡ b'o' ∷ b'l' ∷ []
unfolding main contents ftruncate
main-contents_example = main-contents 3 but_close src dst

empty_test : (main 3 (λ call. true) [] dst).ended ≡ failed mmap_src
unfolding main
empty_test = refl
