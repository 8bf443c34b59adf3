-- ===== src/Common/Decimal.antt =====
-- Decimal numbers as texts: `printf` with "%d", and its inverse.
use Prim.Native.Nat.{ℕ, zero, suc, ◌+◌, ◌-◌, ◌*◌, ◌/◌, ◌%◌, ◌≤◌}
use mathlib.Core.Path.{◌≡◌, refl, ap, ◌∙◌}
use mathlib.Core.Logic.{◌≢◌, inl, inr}
use mathlib.Core.Bool.{Bool, true, false, ◌&&◌}
use mathlib.Core.Option.{Option, none, some}
use mathlib.Core.List.{[], ◌∷◌, ◌++◌, reverse, reverse-cons}
use native.Mathlib.Omega.{arith}
use operating_systems_theory.Common.Tests.{leb, ==→eq, Bool-cases, if◌then◌else◌, ◌==◌}
use operating_systems_theory.Common.Lists.{length, length-append}
use operating_systems_theory.Common.Text.{Text, lacks}
use operating_systems_theory.Common.Int.{ℤ, negsuc, pos}

abbrev pub is_digit : ℕ → Bool
is_digit c = leb b'0' c && leb c b'9'

-- Reading a decimal number: digits behind the value read so far; a whole number with its sign.
unfoldable pub read_digits : Text → (value : ℕ) → Option ℕ
read_digits [] value = some value
read_digits (c ∷ s) value =
    let more = read_digits s (value * 10 + (c - b'0')) in if is_digit c then more else none

abbrev pub negated : ℕ → Option ℤ
negated zero = none
negated (suc n) = some (negsuc n)

unfoldable pub read_number : Text → Option ℤ
unfolding read_digits
read_number [] = none
read_number (c ∷ s) =
    if c == b'-'
    then elim (read_digits s 0) [ none ↦ none | some n ↦ negated n ]
    else elim (read_digits (c ∷ s) 0) [ none ↦ none | some n ↦ some (pos n) ]

-- The digits, the last one first.
unfoldable pub low_digits : ℕ → ℕ → Text
low_digits zero n = []
low_digits (suc k) n =
    let rest = low_digits k (n / 10) in if n == 0 then [] else (n % 10 + b'0') ∷ rest

-- "%d"
unfoldable pub print : ℤ → Text
print (pos n) = if n == 0 then b'0' ∷ [] else reverse (low_digits n n)
print (negsuc n) = b'-' ∷ reverse (low_digits (suc n) (suc n))

read_digits-snoc :
    (s : Text) (c value n : ℕ)
    → read_digits s value ≡ some n
    → is_digit c ≡ true
    → read_digits (s ++ c ∷ []) value ≡ some (n * 10 + (c - b'0'))
unfolding read_digits
read_digits-snoc [] c value n e d = rw d (ground arith)
read_digits-snoc (x ∷ s) c value n e d = elim (Bool-cases (is_digit x)) [
  | inl ok ↦ rw ok (read_digits-snoc s c (value * 10 + (x - b'0')) n (rw ok at e) d)
  | inr bad ↦ absurd (cc (rw bad at e))
]

read_digits-low : (k n : ℕ) → n ≤ k → read_digits (reverse (low_digits k n)) 0 ≡ some n
unfolding low_digits read_digits
read_digits-low zero n h = ground arith
read_digits-low (suc k) n h = elim (Bool-cases (n == 0)) [
  | inl e ↦ rw (e, ==→eq n 0 e) refl
  | inr e ↦
      let digit : is_digit (n % 10 + b'0') ≡ true = ground arith in
      let value : n / 10 * 10 + (n % 10 + b'0' - b'0') ≡ n = omega arith in
      rw (e, reverse-cons (n % 10 + b'0') (low_digits k (n / 10)))
        (read_digits-snoc (reverse (low_digits k (n / 10))) (n % 10 + b'0') 0 (n / 10)
            (read_digits-low k (n / 10) (ground arith)) digit
          ∙ ap some value)
]

not_minus : (c : ℕ) → (c == b'-') ≡ true → is_digit c ≡ false
not_minus c h = ground arith

-- A text of digits has no sign in front.
read_number-digits :
    (s : Text) (n : ℕ) → s ≢ [] → read_digits s 0 ≡ some n → read_number s ≡ some (pos n)
unfolding read_number read_digits
read_number-digits [] n ne e = absurd (ne refl)
read_number-digits (c ∷ s) n ne e = elim (Bool-cases (c == b'-')) [
  | inl minus ↦ absurd (cc (rw (not_minus c minus) at e))
  | inr other ↦ rw (other, e) refl
]

append-ne-nil : (s : Text) (c : ℕ) → s ++ c ∷ [] ≢ []
append-ne-nil s c e = absurd (omega (arith, ap length e, length-append s (c ∷ [])))

low_digits-ne-nil : (n : ℕ) → reverse (low_digits (suc n) (suc n)) ≢ []
unfolding low_digits
low_digits-ne-nil n =
    let more : (suc n == 0) ≡ false = ground arith in
    rw (more, reverse-cons (suc n % 10 + b'0') (low_digits n (suc n / 10)))
      (append-ne-nil (reverse (low_digits n (suc n / 10))) (suc n % 10 + b'0'))

pub read_number-print : (z : ℤ) → read_number (print z) ≡ some z
unfolding print read_number
read_number-print (pos zero) = unfold read_digits in refl
read_number-print (pos (suc n)) =
    let more : (suc n == 0) ≡ false = ground arith in
    rw more (
      read_number-digits (reverse (low_digits (suc n) (suc n))) (suc n) (low_digits-ne-nil n)
        (read_digits-low (suc n) (suc n) (omega arith)))
read_number-print (negsuc n) = rw (read_digits-low (suc n) (suc n) (omega arith)) refl

-- Different numbers print differently.
pub print_inj : (a b : ℤ) → print a ≡ print b → a ≡ b
print_inj a b e = cc (ap read_number e, read_number-print a, read_number-print b)

negative : {n : ℕ} (r : Option ℕ) → elim r [ none ↦ none | some k ↦ negated k ] ≢ some (pos n)
negative none e = cc
negative (some zero) e = cc
negative (some (suc k)) e = cc

positive :
    {n : ℕ} (r : Option ℕ)
    → elim r [ none ↦ none | some k ↦ some (pos k) ] ≡ some (pos n)
    → r ≡ some n
positive none e = cc
positive (some k) e = cc

-- A number without a minus is its digits.
pub read_number→digits :
    (s : Text) (n : ℕ) → read_number s ≡ some (pos n) → (s ≢ []) × (read_digits s 0 ≡ some n)
unfolding read_number
read_number→digits [] n e = absurd (cc)
read_number→digits (c ∷ s) n e = (
  λ nil. absurd (cc (nil)),
  elim (Bool-cases (c == b'-')) [
    | inl minus ↦ absurd (negative (read_digits s 0) (rw minus at e))
    | inr other ↦ positive (read_digits (c ∷ s) 0) (rw other at e)
  ],
)

-- A byte that is no digit does not stand among digits.
pub read_digits-lacks :
    (stop : ℕ) (s : Text) (value n : ℕ)
    → is_digit stop ≡ false
    → read_digits s value ≡ some n
    → lacks stop s ≡ true
unfolding read_digits lacks
read_digits-lacks stop [] value n odd e = refl
read_digits-lacks stop (c ∷ s) value n odd e = elim (Bool-cases (is_digit c)) [
  | inl ok ↦ elim (Bool-cases (c == stop)) [
    | inl same ↦ absurd (cc (odd, ok, ==→eq c stop same))
    | inr other ↦ rw other (read_digits-lacks stop s (value * 10 + (c - b'0')) n odd (rw ok at e))
  ]
  | inr bad ↦ absurd (cc (rw bad at e))
]
