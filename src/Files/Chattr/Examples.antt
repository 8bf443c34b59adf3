-- ===== src/Files/Chattr/Examples.antt =====
-- chattr.c with the letters "aD".
use operating_systems_theory.Common.{
  [], false, if◌then◌else◌, none, refl, some, true, ◌&&◌, ◌∷◌, ◌≡◌,
}
use operating_systems_theory.Files.Chattr.{
  Flags, add, apply, chattr, chattr_lem, done, failed, flag_of, known, mode_arg, names_bit, sub,
}

abbrev no_flags : Flags
no_flags k = false

chattr_lem_test : chattr true true true no_flags (b'a' ∷ b'D' ∷ []) add ≡ (
    if true && (known (b'a' ∷ b'D' ∷ []) && (true && true))
    then done (apply add no_flags (λ k. names_bit k (b'a' ∷ b'D' ∷ [])))
    else failed)
chattr_lem_test = chattr_lem true true true no_flags (b'a' ∷ b'D' ∷ []) add

mode_arg_test :
    (mode_arg (b'-' ∷ b'e' ∷ []) ≡ some (sub, b'e' ∷ [])) × (mode_arg (b'e' ∷ []) ≡ none)
unfolding mode_arg
mode_arg_test = (refl, refl)

flag_test : (known (b'a' ∷ b'D' ∷ []) ≡ true) × (names_bit 16 (b'a' ∷ b'D' ∷ []) ≡ true)
unfolding known names_bit flag_of
flag_test = (refl, refl)
