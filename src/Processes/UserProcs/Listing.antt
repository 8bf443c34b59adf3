-- ===== src/Processes/UserProcs/Listing.antt =====
-- useract.c: which processes are printed.
use operating_systems_theory.Common.{
  ℕ, Bool, List, Option, [], false, ◌==◌, true, ◌≡◌, refl, ◌∷◌, ◌++◌, none, some, if◌then◌else◌,
  length, ◌≤◌, ap, arith, Bool-cases, inl, inr, ◌∙◌, ◌+◌, ◌<◌, ◌*◌, ◌-◌, ◌^◌,
}
use operating_systems_theory.Common.Int.{pos, ℤ}
use operating_systems_theory.Common.Decimal.{
  is_digit, print, read_number, read_digits, read_number→digits,
}
use operating_systems_theory.Common.Text.{Text, text_eq, lacks, text_eq→eq}
use operating_systems_theory.Processes.UserProcs.{
  entry_loop, Output, digits_value, finished, is_skipped, not_opened, run, shown, shown_of,
  signed_value, status_path, strtol, wtchprocstatus, listing_for, pw_uid_of,
}
use operating_systems_theory.Processes.UserProcs.Status.{
  status_lines, all_plain, status_loop-lines, uid_line,
}
use operating_systems_theory.Processes.FdUsers.{skip_spaces, is_space}

-- The lines of a status file, with the name of the program and its real user.
pub data IsStatus (name : Text) (uid : ℕ) : List Text → Type 0 where
  status :
      (before between behind : List Text) (others : Text)
      → all_plain before ≡ true
      → all_plain between ≡ true
      → lacks b'\n' name ≡ true
      → length name ≤ 990
      → length (uid_line uid others) ≤ 999
      → IsStatus name uid (status_lines before name between uid others behind)

-- What an entry of `/proc` stands for.
pub data Row : Type 0 where
  no_process : Row
  gone : Row
  process : (pid uid : ℕ) (name : Text) → Row

-- What is to be printed of a row.
unfoldable pub row_output : (target : ℕ) → Row → List Output
row_output target no_process = []
row_output target gone = not_opened ∷ []
row_output target (process pid uid name) = if uid == target then shown (pos pid) name ∷ [] else []

unfoldable pub outputs : (target : ℕ) → List Row → List Output
outputs target [] = []
outputs target (row ∷ rows) = row_output target row ++ outputs target rows

-- The entries, each with the row that it stands for: one that is passed over, a process whose file
-- cannot be opened, and a process with its number in digits and its status file.
pub data Table (fopen : Text → Option (List Text)) : List Text → List Row → Type 0 where
  empty : Table fopen [] []
  passed_over :
      {entries : List Text} {rows : List Row} (d_name : Text)
      → is_skipped d_name ≡ true
      → Table fopen entries rows
      → Table fopen (d_name ∷ entries) (no_process ∷ rows)
  unreadable :
      {entries : List Text} {rows : List Row} (d_name : Text)
      → is_skipped d_name ≡ false
      → fopen (status_path d_name) ≡ none
      → Table fopen entries rows
      → Table fopen (d_name ∷ entries) (gone ∷ rows)
  readable :
      {entries : List Text} {rows : List Row} (d_name : Text) (pid uid : ℕ) (name : Text)
      → (lines : List Text) → read_number d_name ≡ some (pos pid)
      → 0 < pid
      → fopen (status_path d_name) ≡ some lines
      → IsStatus name uid lines
      → Table fopen entries rows
      → Table fopen (d_name ∷ entries) (process pid uid name ∷ rows)

digits_value-read :
    (s : Text) (value n : ℕ) → read_digits s value ≡ some n → digits_value s value ≡ n
unfolding digits_value read_digits
digits_value-read [] value n e = cc
digits_value-read (c ∷ s) value n e = elim (Bool-cases (is_digit c)) [
  | inl ok ↦ rw ok (digits_value-read s (value * 10 + (c - b'0')) n (rw ok at e))
  | inr bad ↦ absurd (cc (rw bad at e))
]

digit_first : (c value n : ℕ) (s : Text) → read_digits (c ∷ s) value ≡ some n → is_digit c ≡ true
unfolding read_digits
digit_first c value n s e = elim (Bool-cases (is_digit c)) [
  | inl ok ↦ ok
  | inr bad ↦ absurd (cc (rw bad at e))
]

signed_value-digit :
    (c : ℕ) (s : Text)
    → is_digit c ≡ true
    → signed_value (skip_spaces (c ∷ s)) ≡ pos (digits_value (c ∷ s) 0)
unfolding skip_spaces
signed_value-digit c s d =
    let no_space : is_space c ≡ false = ground arith in
    let no_minus : (c == b'-') ≡ false = ground arith in
    let no_plus : (c == b'+') ≡ false = ground arith in rw (no_space, no_minus, no_plus) refl

strtol-number : (s : Text) (n : ℕ) → read_number s ≡ some (pos n) → strtol s ≡ pos n
unfolding strtol
strtol-number [] n e = absurd ((read_number→digits [] n e).0 refl)
strtol-number (c ∷ s) n e =
    let (_, digits) = read_number→digits (c ∷ s) n e in
    signed_value-digit c s (digit_first c 0 n s digits)
    ∙ ap pos (digits_value-read (c ∷ s) 0 n digits)

differs :
    (s t : Text) (n : ℕ) → read_number s ≡ some (pos n) → read_number t ≡ none → text_eq s t ≡ false
differs s t n e f = elim (Bool-cases (text_eq s t)) [
  | inl same ↦ absurd (cc (text_eq→eq s t same, e, f))
  | inr other ↦ other
]

is_skipped-number : (s : Text) (n : ℕ) → read_number s ≡ some (pos n) → 0 < n → is_skipped s ≡ false
unfolding is_skipped read_number read_digits
is_skipped-number s n e h =
    let positive : (n == 0) ≡ false = ground arith in
    rw
      (
        differs s (b'.' ∷ []) n e refl,
        differs s (b'.' ∷ b'.' ∷ []) n e refl,
        strtol-number s n e,
        positive,
      )
      refl

shown_of-if :
    (b : Bool) (pid : ℕ) (name : Text)
    → shown_of (pos pid) (if b then some name else none)
      ≡ (if b then shown (pos pid) name ∷ [] else [])
shown_of-if true pid name = refl
shown_of-if false pid name = refl

wtchprocstatus-lines :
    (target pid uid : ℕ) (name : Text) (lines : List Text)
    → IsStatus name uid lines
    → wtchprocstatus (some lines) (pos pid) (print (pos target))
      ≡ row_output target (process pid uid name)
unfolding wtchprocstatus row_output
wtchprocstatus-lines target pid uid name lines
      (status before between behind others b m clean ln lu) =
    rw (status_loop-lines target [] before name between uid others behind b m clean ln lu)
      (shown_of-if (uid == target) pid name)

wtchprocstatus-missing :
    (pid : ℤ) (struid : Text) → wtchprocstatus none pid struid ≡ not_opened ∷ []
unfolding wtchprocstatus
wtchprocstatus-missing pid struid = refl

entry_loop-outputs :
    (fopen : Text → Option (List Text)) (target : ℕ) {entries : List Text} {rows : List Row}
    → Table fopen entries rows
    → entry_loop fopen (print (pos target)) entries ≡ outputs target rows
unfolding entry_loop outputs row_output
entry_loop-outputs fopen target empty = refl
entry_loop-outputs fopen target (passed_over d_name skip t) =
    rw (skip, entry_loop-outputs fopen target t) refl
entry_loop-outputs fopen target (unreadable d_name seen missing t) =
    rw
      (
        seen,
        missing,
        wtchprocstatus-missing (strtol d_name) (print (pos target)),
        entry_loop-outputs fopen target t,
      )
      refl
entry_loop-outputs fopen target (readable d_name pid uid name lines number more open_ok is t) =
    rw
      (
        is_skipped-number d_name pid number more,
        open_ok,
        strtol-number d_name pid number,
        wtchprocstatus-lines target pid uid name lines is,
        entry_loop-outputs fopen target t,
      )
      refl

listing_for-outputs :
    (fopen : Text → Option (List Text)) (uid : ℕ) {entries : List Text} {rows : List Row}
    → uid < 2 ^ 32 - 1
    → Table fopen entries rows
    → listing_for fopen (some entries) uid ≡ finished (outputs uid rows)
unfolding listing_for
listing_for-outputs fopen uid small t =
    let other : (uid == 2 ^ 32 - 1) ≡ false = ground arith in
    rw (other, entry_loop-outputs fopen uid t) refl

-- For a user of the password file, and a `/proc` of which each entry is passed over, cannot be read,
-- or is a process with a well-formed status file, the program prints, in the order of the entries, the
-- number and the name of exactly the processes whose real user is the one named, and the error of
-- `fopen` for the files that cannot be read. The user's id is not `2 ^ 32 - 1`.
pub run-outputs :
    (getpwnam : Text → Option ℕ) (fopen : Text → Option (List Text)) (user : Text) (uid : ℕ)
    → {entries : List Text} {rows : List Row} → getpwnam user ≡ some uid
    → uid < 2 ^ 32 - 1
    → Table fopen entries rows
    → run getpwnam fopen (some entries) (user ∷ []) ≡ finished (outputs uid rows)
unfolding run
run-outputs getpwnam fopen user uid {entries} {rows} known small t =
    ap (listing_for fopen (some entries)) (ap pw_uid_of known)
    ∙ listing_for-outputs fopen uid small t
