-- ===== src/Processes/UserProcs/Status.antt =====
-- useract.c: what is printed of one status file.
use operating_systems_theory.Common.{
  ℕ, Bool, List, [], ◌==◌, true, ◌≡◌, refl, ◌∷◌, ◌++◌, some, length, ◌≤◌, ap, arith, Bool-cases,
  inl, inr, length-append, take_all, not, ◌&&◌, ◌≢◌, ==_refl, ==→eq, false, if◌then◌else◌, none,
  ◌∙◌,
}
use operating_systems_theory.Common.Int.{pos}
use operating_systems_theory.Common.Decimal.{
  print, read_digits-lacks, read_number-print, read_number→digits, print_inj,
}
use operating_systems_theory.Common.Text.{
  Text, starts_with, lacks, cut_at-append, cut_at, cut_at-skip, text_eq, text_eq_refl, text_eq→eq,
}
use operating_systems_theory.Processes.UserProcs.{status_loop, copied, name_tag, strtok, uid_tag}

-- Lines with neither tag.
unfoldable pub all_plain : List Text → Bool
all_plain [] = true
all_plain (line ∷ lines) =
    not (starts_with name_tag line) && not (starts_with uid_tag line) && all_plain lines

-- The "Name:" line of a program, and the "Uid:" line of a real user and what follows it.
abbrev pub name_line : Text → Text
name_line name = name_tag ++ b'\t' ∷ name ++ b'\n' ∷ []

abbrev pub uid_line : (uid : ℕ) (others : Text) → Text
uid_line uid others = uid_tag ++ b'\t' ∷ print (pos uid) ++ b'\t' ∷ others

status_loop-plain :
    (struid programname : Text) (plain rest : List Text)
    → all_plain plain ≡ true
    → status_loop struid programname (plain ++ rest) ≡ status_loop struid programname rest
unfolding status_loop all_plain
status_loop-plain struid programname [] rest h = refl
status_loop-plain struid programname (line ∷ plain) rest h =
    elim (Bool-cases (starts_with name_tag line)) [
      | inl e ↦ absurd (cc (rw e at h))
      | inr e ↦ elim (Bool-cases (starts_with uid_tag line)) [
        | inl f ↦ absurd (cc (rw (e, f) at h))
        | inr f ↦ rw (e, f) (status_loop-plain struid programname plain rest (rw (e, f) at h))
      ]
    ]

copied-name :
    (name : Text) → lacks b'\n' name ≡ true → length name ≤ 990 → copied 6 (name_line name) ≡ name
unfolding copied
copied-name name h le =
    rw (take_all 999 (name ++ b'\n' ∷ []) (omega (arith, length-append name (b'\n' ∷ []))))
      (cut_at-append b'\n' name [] h)

strtok-first :
    (stop : ℕ) (s t : Text) → s ≢ [] → lacks stop s ≡ true → strtok stop (s ++ stop ∷ t) ≡ some s
unfolding strtok
strtok-first stop [] t ne h = absurd (ne refl)
strtok-first stop (c ∷ s) t ne h = elim (Bool-cases (c == stop)) [
  | inl e ↦ unfold lacks in absurd (cc (rw e at h))
  | inr e ↦ rw e (ap some (cut_at-append stop (c ∷ s) t h))
]

-- The first field of the "Uid:" line is the real user id, as it is printed.
strtok-uid :
    (uid : ℕ) (others : Text)
    → length (uid_line uid others) ≤ 999
    → strtok b'\t' (copied 5 (uid_line uid others)) ≡ some (print (pos uid))
unfolding copied cut_at
strtok-uid uid others le =
    let (ne, digits) = read_number→digits (print (pos uid)) uid (read_number-print (pos uid)) in
    let no_newline = read_digits-lacks b'\n' (print (pos uid)) 0 uid refl digits in
    let no_tab = read_digits-lacks b'\t' (print (pos uid)) 0 uid refl digits in
    let short : length (print (pos uid) ++ b'\t' ∷ others) ≤ 999 = omega (arith, le) in
    rw
      (
        take_all 999 (print (pos uid) ++ b'\t' ∷ others) short,
        cut_at-skip b'\n' (print (pos uid)) (b'\t' ∷ others) no_newline,
      )
      (strtok-first b'\t' (print (pos uid)) (cut_at b'\n' others) ne no_tab)

pos_different : (a b : ℕ) → (a == b) ≡ false → pos a ≢ pos b
pos_different a b other e = let same : a ≡ b = cc (e) in cc (rw same at other, ==_refl b)

text_eq-print : (a b : ℕ) → text_eq (print (pos a)) (print (pos b)) ≡ (a == b)
text_eq-print a b = elim (Bool-cases (a == b)) [
  | inl same ↦ rw (==→eq a b same, ==_refl b) (text_eq_refl (print (pos b)))
  | inr other ↦ elim (Bool-cases (text_eq (print (pos a)) (print (pos b)))) [
    | inl e ↦ absurd (
        pos_different a b other
          (print_inj (pos a) (pos b) (text_eq→eq (print (pos a)) (print (pos b)) e)))
    | inr e ↦ rw (other, e) refl
  ]
]

status_loop-name :
    (struid programname name : Text) (rest : List Text)
    → lacks b'\n' name ≡ true
    → length name ≤ 990
    → status_loop struid programname (name_line name ∷ rest) ≡ status_loop struid name rest
unfolding status_loop starts_with
status_loop-name struid programname name rest clean le = rw (copied-name name clean le) refl

status_loop-uid :
    (target : ℕ) (programname : Text) (uid : ℕ) (others : Text) (rest : List Text)
    → length (uid_line uid others) ≤ 999
    → status_loop (print (pos target)) programname (uid_line uid others ∷ rest)
      ≡ (if uid == target then some programname else none)
unfolding status_loop starts_with
status_loop-uid target programname uid others rest le =
    rw (strtok-uid uid others le, text_eq-print uid target) refl

-- A status file, its "Name:" line in front of its "Uid:" line.
abbrev pub status_lines :
    (before : List Text) (name : Text) (between : List Text) (uid : ℕ) (others : Text)
    → (behind : List Text) → List Text
status_lines before name between uid others behind =
    before ++ (name_line name ∷ (between ++ (uid_line uid others ∷ behind)))

-- The name is given exactly where the real user is the one looked for.
pub status_loop-lines :
    (target : ℕ) (programname : Text) (before : List Text) (name : Text) (between : List Text)
    (uid : ℕ)
    → (others : Text) (behind : List Text) → all_plain before ≡ true
    → all_plain between ≡ true
    → lacks b'\n' name ≡ true
    → length name ≤ 990
    → length (uid_line uid others) ≤ 999
    → status_loop
        (print (pos target))
        programname
        (status_lines before name between uid others behind)
      ≡ (if uid == target then some name else none)
status_loop-lines target programname before name between uid others behind b m clean ln lu =
    status_loop-plain (print (pos target)) programname before
      (name_line name ∷ (between ++ (uid_line uid others ∷ behind))) b
    ∙ status_loop-name (print (pos target)) programname name
        (between ++ (uid_line uid others ∷ behind)) clean ln
    ∙ status_loop-plain (print (pos target)) name between (uid_line uid others ∷ behind) m
    ∙ status_loop-uid target name uid others behind lu
