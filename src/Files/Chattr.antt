-- ===== src/Files/Chattr.antt =====
-- linux-api-kerrisk/fileattrs/chattr.c: adding, taking away and setting the attributes of a file.
use operating_systems_theory.Common.{
  ℕ, Bool, List, Option, Option-cases, [], ap, arith, false, fun_ext, if◌then◌else◌, inl, inr, none,
  not, refl, some, take, true, ◌&&◌, ◌==◌, ◌||◌, ◌∙◌, ◌∷◌, ◌≡◌,
}
mod Examples

-- The attribute flags as bits: `flags k` says whether bit `k` is set.
abbrev pub Flags : Type 0
Flags = ℕ → Bool

-- `chattr_act_t`
pub data Act : Type 0 where
  add : Act
  sub : Act
  asn : Act

-- The bit of each letter, from the values of `FS_APPEND_FL` and the others in `linux/fs.h`.
pub flag_of : (letter : ℕ) → Option ℕ
flag_of c =
    if c == b'a'
    then some 5
    else if c == b'A'
    then some 7
    else if c == b'c'
    then some 2
    else if c == b'd'
    then some 6
    else if c == b'D'
    then some 16
    else if c == b'e'
    then some 19
    else none

-- The loop over the letters, `newattrs |= …`; `none` for an unknown letter.
pub parse : List ℕ → Flags → Option Flags
parse [] newattrs = some newattrs
parse (c ∷ cs) newattrs =
    let rest = λ (b : ℕ). parse cs (λ k. newattrs k || (k == b)) in
    elim (flag_of c) [ none ↦ none | some b ↦ rest b ]

-- `currattrs |= newattrs`, `currattrs &= ~newattrs`, `currattrs = newattrs`.
pub apply : Act → (currattrs newattrs : Flags) → Flags
apply add curr new k = curr k || new k
apply sub curr new k = curr k && not (new k)
apply asn curr new k = new k

-- How the program ends: an error message and a failure, or the flags that are set.
pub data Outcome : Type 0 where
  failed : Outcome
  done : Flags → Outcome

-- `chattr` on a file with these flags; whether `open` and the two `ioctl`s succeed is given.
pub chattr : (opens gets sets : Bool) (current : Flags) (attrs : List ℕ) → Act → Outcome
chattr opens gets sets current attrs act =
    if not opens then failed else elim (parse attrs (λ k. false)) [
      | none ↦ failed
      | some newattrs ↦
          if not gets
          then failed
          else if not sets
          then failed
          else done (apply act current newattrs)
    ]

-- The mode argument of `main`: the action, and at most 19 letters behind it.
pub mode_arg : List ℕ → Option (Act × List ℕ)
mode_arg [] = none
mode_arg (c ∷ cs) =
    let letters = take 19 cs in
    if c == b'+'
    then some (add, letters)
    else if c == b'-'
    then some (sub, letters)
    else if c == b'='
    then some (asn, letters)
    else none

-- Whether some letter stands for the bit.
pub names_bit : ℕ → List ℕ → Bool
names_bit k [] = false
names_bit k (c ∷ cs) = elim (flag_of c) [ none ↦ false | some b ↦ k == b ] || names_bit k cs

pub known : List ℕ → Bool
known [] = true
known (c ∷ cs) = elim (flag_of c) [ none ↦ false | some b ↦ true ] && known cs

parse-known :
    (cs : List ℕ) (new : Flags)
    → parse cs new ≡ (if known cs then some (λ k. new k || names_bit k cs) else none)
unfolding parse known names_bit
parse-known [] new = ap some (fun_ext λ k. ground arith)
parse-known (c ∷ cs) new = elim (Option-cases (flag_of c)) [
  | inl e ↦ rw (e, parse, known) refl
  | inr (b, e) ↦
      rw (e, parse, known, names_bit)
        (parse-known cs (λ k. new k || (k == b))
          ∙ ap (λ f. if known cs then some f else none) (fun_ext λ k. ground arith))
]

-- `chattr` sets flags exactly if the file opens, every letter is known and both `ioctl`s succeed: bit
-- by bit those of the letters added to the current ones, taken from them, or alone. Otherwise it
-- fails.
pub chattr_lem :
    (opens gets sets : Bool) (current : Flags) (attrs : List ℕ) (act : Act)
    → chattr opens gets sets current attrs act ≡ (
        if opens && (known attrs && (gets && sets))
        then done (apply act current (λ k. names_bit k attrs))
        else failed)
unfolding chattr
chattr_lem opens gets sets current attrs act = ground (arith, parse-known attrs (λ k. false))
