-- ===== src/Processes/FdUsers/Decimal.antt =====
-- userfsact.c: what `dtoa` writes is the number in decimal.
use operating_systems_theory.Common.{
  ℕ, Bool-cases, [], ap, append-nil, append_assoc, arith, inl, inr, length, length-append, refl,
  reverse, some, suc, sym, zero, ◌%◌, ◌++◌, ◌+◌, ◌/◌, ◌==◌, ◌∙◌, ◌∷◌, ◌≡◌, ◌≤◌, false,
}
use operating_systems_theory.Common.Int.{ℤ, negsuc, pos}
use operating_systems_theory.Common.Decimal.{print, low_digits, read_number, read_number-print}
use operating_systems_theory.Common.Text.{Text}
use operating_systems_theory.Processes.FdUsers.{push_digits, dtoa, turned, swap_loop}
use operating_systems_theory.Processes.FdUsers.Swap.{swap_loop-reverse}

push_digits-low : (k n : ℕ) (buf : Text) → push_digits k n buf ≡ buf ++ low_digits k n
unfolding push_digits low_digits
push_digits-low zero n buf = sym (append-nil buf)
push_digits-low (suc k) n buf = elim (Bool-cases (n == 0)) [
  | inl e ↦ rw e (sym (append-nil buf))
  | inr e ↦ rw e (
      push_digits-low k (n / 10) (buf ++ (n % 10 + b'0') ∷ [])
      ∙ append_assoc buf ((n % 10 + b'0') ∷ []) (low_digits k (n / 10)))
]

turned-reverse : (sign s : Text) → turned sign (sign ++ s) ≡ sign ++ reverse s
turned-reverse sign s =
    let len : length (sign ++ s) ≡ length sign + length s = length-append sign s in
    let fits : length s ≤ length sign + length s = omega arith in
    rw (len, ← append-nil (sign ++ s), append_assoc sign s [])
      (swap_loop-reverse (length sign + length s) sign s [] fits
        ∙ ap (λ l. sign ++ l) (append-nil (reverse s)))

-- What `dtoa` writes is what `printf` prints.
pub dtoa-print : (z : ℤ) → dtoa z ≡ print z
unfolding dtoa print
dtoa-print (pos zero) = unfold swap_loop in refl
dtoa-print (pos (suc n)) =
    let more : (suc n == 0) ≡ false = ground arith in
    rw (more, push_digits-low (suc n) (suc n) []) (turned-reverse [] (low_digits (suc n) (suc n)))
dtoa-print (negsuc n) =
    rw (push_digits-low (suc n) (suc n) (b'-' ∷ []))
      (turned-reverse (b'-' ∷ []) (low_digits (suc n) (suc n)))

-- `dtoa` is right for every number but the least `long long`: what it writes is the number in decimal,
-- as `printf` prints it, and read back it is the number.
pub read_number-dtoa : (z : ℤ) → (dtoa z ≡ print z) × (read_number (dtoa z) ≡ some z)
read_number-dtoa z = (dtoa-print z, rw (dtoa-print z) (read_number-print z))
