-- ===== src/Processes/FdUsers/Examples.antt =====
-- userfsact.c with two processes, of which the second has the file at descriptor 10.
use operating_systems_theory.Common.{
  ℕ, Bool-cases, inl, inr, arith, List, Option, [], get_or, if◌then◌else◌, none, refl, some, true,
  ◌<◌, ◌==◌, ◌↔◌, ◌∷◌, ◌≡◌,
}
use operating_systems_theory.Common.Int.{pos, negsuc}
use operating_systems_theory.Common.Decimal.{print, read_number}
use operating_systems_theory.Common.Text.{Text, text_eq}
use operating_systems_theory.Processes.FdUsers.{
  dtoa, proc_loop, isdigitstr, push_digits, swap_loop, fd_loop,
}
use operating_systems_theory.Processes.FdUsers.Decimal.{read_number-dtoa}
use operating_systems_theory.Processes.FdUsers.Listing.{
  LinksShort, link_path, proc_loop-users, opens_below, users,
}

read_number-dtoa_example :
    (dtoa (negsuc 1233) ≡ print (negsuc 1233))
    × (read_number (dtoa (negsuc 1233)) ≡ some (negsuc 1233))
read_number-dtoa_example = read_number-dtoa (negsuc 1233)

dtoa_test : dtoa (negsuc 1233) ≡ b'-' ∷ b'1' ∷ b'2' ∷ b'3' ∷ b'4' ∷ []
unfolding dtoa push_digits swap_loop
dtoa_test = refl

isdigitstr_test :
    (isdigitstr (b'4' ∷ b'2' ∷ []) ≡ pos 0) × (isdigitstr (b'4' ∷ b'x' ∷ []) ≡ negsuc 0)
unfolding isdigitstr
isdigitstr_test = (refl, refl)

-- Every link of process 7 is "/f", and no other process has any.
abbrev links : Text → Option Text
links path = if get_or path 6 0 == b'7' then some (b'/' ∷ b'f' ∷ []) else none

abbrev entries : List Text
entries = (b'.' ∷ []) ∷ (b'5' ∷ []) ∷ (b'7' ∷ []) ∷ []

links-short : LinksShort links
links-short path link e = elim (Bool-cases (get_or path 6 0 == b'7')) [
  | inl seven ↦ let here : link ≡ b'/' ∷ b'f' ∷ [] = cc (rw seven at e) in rw here (omega arith)
  | inr other ↦ absurd (cc (rw other at e))
]

proc_loop-users_example :
    (proc_loop links (b'/' ∷ b'f' ∷ []) entries ≡ users links (b'/' ∷ b'f' ∷ []) entries)
    × ((name : Text)
        → (opens_below links (b'/' ∷ b'f' ∷ []) 16 name ≡ true)
          ↔ ((fd : ℕ) × (fd < 16) × (links (link_path name fd) ≡ some (b'/' ∷ b'f' ∷ []))))
proc_loop-users_example =
    proc_loop-users links (b'/' ∷ b'f' ∷ []) links-short entries
      (omega arith, (omega arith, (omega arith, tt)))

proc_loop_test : proc_loop links (b'/' ∷ b'f' ∷ []) entries ≡ (b'7' ∷ []) ∷ []
unfolding proc_loop isdigitstr fd_loop dtoa push_digits swap_loop text_eq
proc_loop_test = refl
