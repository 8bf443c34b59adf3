-- ===== src/Processes/FdUsers.antt =====
-- linux-api-kerrisk/procfs/userfsact.c: the processes that have a file open, found under `/proc`.
-- `FOPEN_MAX` is 16 and `PATH_MAX` 4096.
use operating_systems_theory.Common.{
  ℕ, Bool, List, Option, [], false, get_or, if◌then◌else◌, leb, length, ltb, none, set, some, suc,
  take, true, zero, ◌%◌, ◌&&◌, ◌++◌, ◌+◌, ◌-◌, ◌/◌, ◌==◌, ◌||◌, ◌∷◌,
}
use operating_systems_theory.Common.Int.{ℤ, negsuc, pos}
use operating_systems_theory.Common.Decimal.{is_digit}
use operating_systems_theory.Common.Text.{Text, text_eq}
pub mod Swap
pub mod Decimal
pub mod Numbers
pub mod Listing
mod Examples

-- `isspace`
abbrev pub is_space : ℕ → Bool
is_space c = (leb 9 c && leb c 13) || (c == 32)

-- `strtoll` in base 10, of which only `endp` is used: the bytes behind the number, or the whole text
-- where there is no number.
unfoldable pub skip_spaces : Text → Text
skip_spaces [] = []
skip_spaces (c ∷ s) = if is_space c then skip_spaces s else c ∷ s

unfoldable pub skip_digits : Text → Text
skip_digits [] = []
skip_digits (c ∷ s) = if is_digit c then skip_digits s else c ∷ s

abbrev pub skip_sign : Text → Text
skip_sign [] = []
skip_sign (c ∷ s) = if (c == b'-') || (c == b'+') then s else c ∷ s

abbrev pub behind_digits : (whole s : Text) → Text
behind_digits whole [] = whole
behind_digits whole (c ∷ s) = if is_digit c then skip_digits s else whole

unfoldable pub strtoll_end : Text → Text
unfolding skip_spaces skip_digits
strtoll_end s = behind_digits s (skip_sign (skip_spaces s))

abbrev pub is_empty : Text → Bool
is_empty [] = true
is_empty (c ∷ s) = false

-- `isdigitstr`: 0 for a text that is one number, else -1.
unfoldable pub isdigitstr : Text → ℤ
unfolding strtoll_end
isdigitstr s = if is_empty s then negsuc 0 else if is_empty (strtoll_end s) then pos 0 else negsuc 0

-- The loop of `dtoa` that writes the digits at `bufp`, the last digit first, on fuel.
unfoldable pub push_digits : ℕ → (n : ℕ) → (buf : Text) → Text
push_digits zero n buf = buf
push_digits (suc k) n buf =
    let rest = push_digits k (n / 10) (buf ++ (n % 10 + b'0') ∷ []) in if n == 0 then buf else rest

-- The loop that turns the bytes from `l` to `r` round in place, on fuel.
unfoldable pub swap_loop : ℕ → (buf : Text) → (l r : ℕ) → Text
swap_loop zero buf l r = buf
swap_loop (suc k) buf l r =
    let swapped = set (set buf l (get_or buf r 0)) r (get_or buf l 0) in
    let rest = swap_loop k swapped (l + 1) (r - 1) in if ltb l r then rest else buf

-- The two loops, behind a sign or none.
abbrev pub turned : (sign : Text) → Text → Text
turned sign buf = swap_loop (length buf) buf (length sign) (length buf - 1)

-- `dtoa`. The number negated is taken to fit, as for any but the least `long long`.
unfoldable pub dtoa : ℤ → Text
dtoa (pos n) = if n == 0 then turned [] (b'0' ∷ []) else turned [] (push_digits n n [])
dtoa (negsuc n) = turned (b'-' ∷ []) (push_digits (suc n) (suc n) (b'-' ∷ []))

abbrev pub path_max : ℕ
path_max = 4096

-- `snprintf(path, sizeof(path), "/proc/%s/fd/", name)`
abbrev pub fd_path : (name : Text) → Text
fd_path name =
    take (path_max - 1)
      (b'/' ∷ b'p' ∷ b'r' ∷ b'o' ∷ b'c' ∷ b'/' ∷ name ++ b'/' ∷ b'f' ∷ b'd' ∷ b'/' ∷ [])

-- What `readlink` gives, cut to the buffer, is the path that is looked for.
abbrev pub is_target : (target : Text) → Option Text → Bool
is_target target none = false
is_target target (some link) = text_eq target (take (path_max - 1) link)

-- The loop over the descriptors from `fdnum` on, `rounds` of them: whether it prints the process. Each
-- number is added to `path` and cut off again.
unfoldable pub fd_loop :
    (readlink : Text → Option Text) (target : Text) (rounds fdnum : ℕ) (path : Text) → Bool
unfolding dtoa
fd_loop readlink target zero fdnum path = false
fd_loop readlink target (suc k) fdnum path =
    let s = dtoa (pos fdnum) in
    let longer = path ++ s in
    let rest = fd_loop readlink target k (fdnum + 1) (take (length longer - length s) longer) in
    if is_target target (readlink longer) then true else rest

-- A result that is not -1.
abbrev pub is_found : ℤ → Bool
is_found (pos n) = true
is_found (negsuc n) = false

-- The loop over the entries of `/proc`: the processes that are printed.
unfoldable pub proc_loop : (readlink : Text → Option Text) (target : Text) → List Text → List Text
proc_loop readlink target [] = []
proc_loop readlink target (name ∷ names) =
    let rest = proc_loop readlink target names in
    if is_found (isdigitstr name)
    then (if fd_loop readlink target 16 0 (fd_path name) then name ∷ rest else rest)
    else rest
