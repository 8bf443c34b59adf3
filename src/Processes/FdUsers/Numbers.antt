-- ===== src/Processes/FdUsers/Numbers.antt =====
-- userfsact.c: which names `isdigitstr` takes for numbers.
use operating_systems_theory.Common.{
  Bool-cases, inl, inr, ◌∙◌, Bool, [], ◌&&◌, ◌==◌, ◌||◌, ◌∷◌, ◌≡◌, false, true, refl, if◌then◌else◌,
}
use operating_systems_theory.Common.Int.{pos, negsuc}
use operating_systems_theory.Common.Decimal.{is_digit}
use operating_systems_theory.Common.Text.{Text}
use operating_systems_theory.Processes.FdUsers.{
  is_space, skip_spaces, skip_digits, skip_sign, behind_digits, strtoll_end, is_empty, isdigitstr,
  is_found,
}

-- A number in decimal: spaces, a sign or none, and then digits up to the end, one of them at least.
unfoldable pub only_digits : Text → Bool
only_digits [] = true
only_digits (c ∷ s) = is_digit c && only_digits s

unfoldable pub some_digits : Text → Bool
some_digits [] = false
some_digits (c ∷ s) = is_digit c && only_digits s

unfoldable pub signed : Text → Bool
signed [] = false
signed (c ∷ s) = if (c == b'-') || (c == b'+') then some_digits s else some_digits (c ∷ s)

unfoldable pub is_decimal : Text → Bool
is_decimal [] = false
is_decimal (c ∷ s) = let rest = is_decimal s in if is_space c then rest else signed (c ∷ s)

skip_digits-only : (s : Text) → is_empty (skip_digits s) ≡ only_digits s
unfolding skip_digits only_digits
skip_digits-only [] = refl
skip_digits-only (c ∷ s) = elim (Bool-cases (is_digit c)) [
  | inl e ↦ rw e (skip_digits-only s)
  | inr e ↦ rw e refl
]

behind_digits-some :
    (whole s : Text) → is_empty whole ≡ false → is_empty (behind_digits whole s) ≡ some_digits s
unfolding some_digits
behind_digits-some whole [] h = h
behind_digits-some whole (c ∷ s) h = elim (Bool-cases (is_digit c)) [
  | inl e ↦ rw e (skip_digits-only s)
  | inr e ↦ rw e h
]

skip_sign-signed : (s : Text) → some_digits (skip_sign s) ≡ signed s
unfolding signed some_digits
skip_sign-signed [] = refl
skip_sign-signed (c ∷ s) = elim (Bool-cases ((c == b'-') || (c == b'+'))) [
  | inl e ↦ rw e refl
  | inr e ↦ rw e refl
]

skip_spaces-decimal : (s : Text) → signed (skip_spaces s) ≡ is_decimal s
unfolding skip_spaces is_decimal
skip_spaces-decimal [] = unfold signed in refl
skip_spaces-decimal (c ∷ s) = elim (Bool-cases (is_space c)) [
  | inl e ↦ rw e (skip_spaces-decimal s)
  | inr e ↦ rw e refl
]

is_found-test : (b : Bool) → is_found (if b then pos 0 else negsuc 0) ≡ b
is_found-test true = refl
is_found-test false = refl

pub isdigitstr-decimal : (s : Text) → is_found (isdigitstr s) ≡ is_decimal s
unfolding isdigitstr strtoll_end
isdigitstr-decimal [] = unfold is_decimal in refl
isdigitstr-decimal (c ∷ s) =
    is_found-test (is_empty (strtoll_end (c ∷ s)))
    ∙ behind_digits-some (c ∷ s) (skip_sign (skip_spaces (c ∷ s))) refl
    ∙ skip_sign-signed (skip_spaces (c ∷ s))
    ∙ skip_spaces-decimal (c ∷ s)
