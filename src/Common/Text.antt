-- ===== src/Common/Text.antt =====
-- Texts as lists of bytes, without the zero byte at the end.
use Prim.Native.Nat.{ℕ}
use mathlib.Core.Path.{◌≡◌, refl, ap, ap₂}
use mathlib.Core.Logic.{inl, inr}
use mathlib.Core.Bool.{Bool, true, false, ◌&&◌}
use mathlib.Core.List.{List, [], ◌∷◌, ◌++◌}
use operating_systems_theory.Common.Tests.{◌==◌, ==→eq, ==_refl, Bool-cases, if◌then◌else◌}

abbrev pub Text : Type 0
Text = List ℕ

-- `strcmp(s, t) == 0`
unfoldable pub text_eq : Text → Text → Bool
text_eq [] [] = true
text_eq [] (d ∷ t) = false
text_eq (c ∷ s) [] = false
text_eq (c ∷ s) (d ∷ t) = (c == d) && text_eq s t

pub text_eq_refl : (s : Text) → text_eq s s ≡ true
unfolding text_eq
text_eq_refl [] = refl
text_eq_refl (c ∷ s) = rw (==_refl c, text_eq_refl s)

pub text_eq→eq : (s t : Text) → text_eq s t ≡ true → s ≡ t
unfolding text_eq
text_eq→eq [] [] h = refl
text_eq→eq [] (d ∷ t) h = cc
text_eq→eq (c ∷ s) [] h = cc
text_eq→eq (c ∷ s) (d ∷ t) h = elim (Bool-cases (c == d)) [
  | inl e ↦ ap₂ (λ x l. x ∷ l) (==→eq c d e) (text_eq→eq s t (rw e at h))
  | inr e ↦ absurd (cc (rw e at h))
]

-- `strncmp(s, prefix, strlen(prefix)) == 0`
unfoldable pub starts_with : (prefix s : Text) → Bool
starts_with [] s = true
starts_with (p ∷ ps) [] = false
starts_with (p ∷ ps) (c ∷ s) = (c == p) && starts_with ps s

pub starts_with-append : (prefix s : Text) → starts_with prefix (prefix ++ s) ≡ true
unfolding starts_with
starts_with-append [] s = refl
starts_with-append (p ∷ ps) s = rw (==_refl p, starts_with-append ps s)

-- `s[strcspn(s, stop)] = '\0'`: the bytes in front of the first `stop`.
unfoldable pub cut_at : (stop : ℕ) → Text → Text
cut_at stop [] = []
cut_at stop (c ∷ s) = if c == stop then [] else c ∷ cut_at stop s

-- No byte of the text is `stop`.
unfoldable pub lacks : (stop : ℕ) → Text → Bool
lacks stop [] = true
lacks stop (c ∷ s) = if c == stop then false else lacks stop s

pub cut_at-append : (stop : ℕ) (s t : Text) → lacks stop s ≡ true → cut_at stop (s ++ stop ∷ t) ≡ s
unfolding cut_at lacks
cut_at-append stop [] t h = rw (==_refl stop) refl
cut_at-append stop (c ∷ s) t h = elim (Bool-cases (c == stop)) [
  | inl e ↦ absurd (cc (rw e at h))
  | inr e ↦ rw e (ap (λ l. c ∷ l) (cut_at-append stop s t (rw e at h)))
]

-- Behind a part without `stop` the cut goes on.
pub cut_at-skip :
    (stop : ℕ) (s t : Text) → lacks stop s ≡ true → cut_at stop (s ++ t) ≡ s ++ cut_at stop t
unfolding cut_at lacks
cut_at-skip stop [] t h = refl
cut_at-skip stop (c ∷ s) t h = elim (Bool-cases (c == stop)) [
  | inl e ↦ absurd (cc (rw e at h))
  | inr e ↦ rw e (ap (λ l. c ∷ l) (cut_at-skip stop s t (rw e at h)))
]

-- What stands behind a `stop` does not matter.
pub cut_at-first :
    (stop : ℕ) (s t : Text) → lacks stop s ≡ false → cut_at stop (s ++ t) ≡ cut_at stop s
unfolding cut_at lacks
cut_at-first stop [] t h = absurd (cc (h))
cut_at-first stop (c ∷ s) t h = elim (Bool-cases (c == stop)) [
  | inl e ↦ rw e refl
  | inr e ↦ rw e (ap (λ l. c ∷ l) (cut_at-first stop s t (rw e at h)))
]

pub lacks-append : (stop : ℕ) (s t : Text) → lacks stop (s ++ stop ∷ t) ≡ false
unfolding lacks
lacks-append stop [] t = rw (==_refl stop) refl
lacks-append stop (c ∷ s) t = elim (Bool-cases (c == stop)) [
  | inl e ↦ rw e refl
  | inr e ↦ rw e (lacks-append stop s t)
]
