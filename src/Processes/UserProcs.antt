-- ===== src/Processes/UserProcs.antt =====
-- linux-api-kerrisk/procfs/useract.c: the processes of one user, found under `/proc`. `PATH_MAX` is
-- 4096. `fopen` with the `fgets` calls that follow is a parameter, which gives the lines of a file,
-- each with its newline; so are `getpwnam` and `opendir`. A line is one that `fgets` gives for the
-- buffer of 1000 bytes; a "Name:" line of five bytes, behind whose end the code reads, is taken to
-- have an empty name.
use operating_systems_theory.Common.{
  ℕ, Bool, List, Option, [], false, take, drop, ◌==◌, ◌-◌, ◌+◌, ◌*◌, ◌^◌, suc, zero, if◌then◌else◌,
  none, some, ◌∷◌, ◌++◌, ◌||◌,
}
use operating_systems_theory.Common.Int.{ℤ, negsuc, pos}
use operating_systems_theory.Common.Decimal.{is_digit, print}
use operating_systems_theory.Common.Text.{Text, text_eq, starts_with, cut_at}
use operating_systems_theory.Processes.FdUsers.{skip_spaces}
pub mod Status
pub mod Listing
mod Examples

-- What the program prints: the error of `fopen`, or a process of the user.
pub data Output : Type 0 where
  not_opened : Output
  shown : (pid : ℤ) (programname : Text) → Output

-- `strtok(s, "\t")`: the first field that is not empty.
abbrev pub field_from : (stop : ℕ) → Text → Option Text
field_from stop [] = none
field_from stop (c ∷ s) = some (cut_at stop (c ∷ s))

unfoldable pub strtok : (stop : ℕ) → Text → Option Text
strtok stop [] = none
strtok stop (c ∷ s) = if c == stop then strtok stop s else field_from stop (c ∷ s)

abbrev pub name_tag : Text
name_tag = b'N' ∷ b'a' ∷ b'm' ∷ b'e' ∷ b':' ∷ []

abbrev pub uid_tag : Text
uid_tag = b'U' ∷ b'i' ∷ b'd' ∷ b':' ∷ []

-- `strncpy(to, buf + from, 999)` and the cut at the newline behind it.
unfoldable pub copied : (from : ℕ) → (buf : Text) → Text
copied from buf = cut_at b'\n' (take 999 (drop from buf))

abbrev pub is_uid : Option Text → (struid : Text) → Bool
is_uid none struid = false
is_uid (some s) struid = text_eq s struid

-- The loop of `wtchprocstatus` over the lines: the name it prints, if any.
unfoldable pub status_loop : (struid programname : Text) → (lines : List Text) → Option Text
unfolding copied strtok
status_loop struid programname [] = none
status_loop struid programname (buf ∷ lines) =
    let name = if starts_with name_tag buf then copied 6 buf else programname in
    let rest = status_loop struid name lines in
    if starts_with uid_tag buf
    then (if is_uid (strtok b'\t' (copied 5 buf)) struid then some name else none)
    else rest

-- `strtol` in base 10 and `%d` of `sscanf`, for a number that fits: the value of the digits behind
-- spaces and a sign, 0 where there are none.
unfoldable pub digits_value : Text → (value : ℕ) → ℕ
digits_value [] value = value
digits_value (c ∷ s) value =
    let more = digits_value s (value * 10 + (c - b'0')) in if is_digit c then more else value

abbrev pub negated_value : ℕ → ℤ
negated_value zero = pos 0
negated_value (suc n) = negsuc n

abbrev pub signed_value : Text → ℤ
signed_value [] = pos 0
signed_value (c ∷ s) =
    if c == b'-'
    then negated_value (digits_value s 0)
    else if c == b'+'
    then pos (digits_value s 0)
    else pos (digits_value (c ∷ s) 0)

unfoldable pub strtol : Text → ℤ
unfolding digits_value
strtol s = signed_value (skip_spaces s)

-- `snprintf(path, sizeof(path), "/proc/%s/status", name)`
abbrev pub status_path : (name : Text) → Text
status_path name = take (4096 - 1) (
    b'/' ∷ b'p' ∷ b'r' ∷ b'o' ∷ b'c' ∷ b'/' ∷ name
    ++ b'/' ∷ b's' ∷ b't' ∷ b'a' ∷ b't' ∷ b'u' ∷ b's' ∷ [])

abbrev pub shown_of : (pid : ℤ) → Option Text → List Output
shown_of pid none = []
shown_of pid (some programname) = shown pid programname ∷ []

-- `wtchprocstatus`, the file opened. Its path begins with "/proc/" and the number, which `sscanf`
-- reads back.
unfoldable pub wtchprocstatus : (file : Option (List Text)) (pid : ℤ) (struid : Text) → List Output
unfolding status_loop
wtchprocstatus none pid struid = not_opened ∷ []
wtchprocstatus (some lines) pid struid = shown_of pid (status_loop struid [] lines)

abbrev pub is_zero : ℤ → Bool
is_zero (pos n) = n == 0
is_zero (negsuc n) = false

-- An entry that the loop of `main` passes over.
unfoldable pub is_skipped : (d_name : Text) → Bool
unfolding strtol
is_skipped d_name =
    text_eq d_name (b'.' ∷ []) || text_eq d_name (b'.' ∷ b'.' ∷ []) || is_zero (strtol d_name)

-- The loop of `main` over the entries of `/proc`.
unfoldable pub entry_loop :
    (fopen : Text → Option (List Text)) (struid : Text) → (entries : List Text) → List Output
entry_loop fopen struid [] = []
entry_loop fopen struid (d_name ∷ entries) =
    let rest = entry_loop fopen struid entries in
    if is_skipped d_name
    then rest
    else wtchprocstatus (fopen (status_path d_name)) (strtol d_name) struid ++ rest

-- `uid_from_name`; `(uid_t) -1` is `2 ^ 32 - 1`.
abbrev pub pw_uid_of : Option ℕ → ℕ
pw_uid_of none = 2 ^ 32 - 1
pw_uid_of (some pw_uid) = pw_uid

abbrev pub uid_from_name : (getpwnam : Text → Option ℕ) (name : Text) → ℕ
uid_from_name getpwnam name = pw_uid_of (getpwnam name)

-- How the program ends.
pub data Outcome : Type 0 where
  usage : Outcome
  user_not_found : Outcome
  no_directory : Outcome
  finished : (printed : List Output) → Outcome

abbrev pub listing :
    (fopen : Text → Option (List Text)) (target_uid : ℕ) (opendir : Option (List Text)) → Outcome
listing fopen target_uid none = no_directory
listing fopen target_uid (some entries) =
    finished (entry_loop fopen (print (pos target_uid)) entries)

unfoldable pub listing_for :
    (fopen : Text → Option (List Text)) (opendir : Option (List Text)) (target_uid : ℕ) → Outcome
listing_for fopen opendir target_uid =
    if target_uid == 2 ^ 32 - 1 then user_not_found else listing fopen target_uid opendir

-- `main` on the arguments behind the program's name.
unfoldable pub run :
    (getpwnam : Text → Option ℕ) (fopen : Text → Option (List Text)) (opendir : Option (List Text))
    → (args : List Text) → Outcome
run getpwnam fopen opendir (name ∷ []) = listing_for fopen opendir (uid_from_name getpwnam name)
run getpwnam fopen opendir [] = usage
run getpwnam fopen opendir (name ∷ other ∷ args) = usage
