-- ===== src/Files/Tail.antt =====
-- linux-api-kerrisk/fbufio/tail.c: the last lines of a file, found by reading it backwards in chunks.
-- The file does not change meanwhile, and `lseek` and `read` on it succeed and read all that is asked.
use operating_systems_theory.Common.{
  ℕ, Bool, List, Option, drop, get_or, if◌then◌else◌, length, ltb, none, not, some, suc, take, zero,
  ◌&&◌, ◌+◌, ◌-◌, ◌==◌,
}
use operating_systems_theory.Common.Int.{ℤ, negsuc, pos}
use mathlib.Core.Option
pub mod Lines
mod Examples

-- What `strtol` reports of `argv[2]`.
pub record Strtol : Type 0 where
  pub value : ℤ
  pub out_of_range : Bool
  pub no_digits : Bool

pub data Options : Type 0 where
  usage : Options
  bad_number : Options
  no_number : Options
  negative : Options
  lines : ℕ → Options

-- The first half of `main`: how many lines are asked for. The conversion to `int` keeps the value.
options : (argc : ℕ) → Strtol → Options
options argc s =
    if not (argc == 2) && not (argc == 4)
    then usage
    else if argc == 2
    then lines 10
    else if s.out_of_range
    then bad_number
    else if s.no_digits
    then no_number
    else elim s.value [ pos n ↦ lines n | negsuc n ↦ negative ]

-- `BUFSIZ`, as the file defines it.
abbrev pub buf_size : ℕ
buf_size = 1024

-- The loop over one chunk, from the byte before `i` down: it finds the newline at which the last lines
-- begin, or goes on with fewer lines to find.
pub data Scan : Type 0 where
  found : ℕ → Scan
  go_on : ℕ → Scan

unfoldable pub scan : (buf : List ℕ) (i nlines : ℕ) → Scan
scan buf zero nlines = go_on nlines
scan buf (suc i) nlines =
    let rest = scan buf i nlines in
    let fewer = scan buf i (nlines - 1) in
    if get_or buf i 0 == b'\n' then (if nlines == 0 then found (i + 1) else fewer) else rest

-- `(pos > BUFSIZ) ? BUFSIZ : pos`
abbrev pub bytes_to_read : ℕ → ℕ
bytes_to_read at = if ltb buf_size at then buf_size else at

-- What the outer loop does behind the scan of a chunk that starts at `from`.
abbrev pub resume : Scan → ℕ → (ℕ → Option ℕ) → Option ℕ
resume (found i) from next = some (from + i)
resume (go_on fewer) from next = next fewer

-- The outer loop, on fuel: where the output starts. `none` means that the fuel ran out.
unfoldable pub seek_back : ℕ → (file : List ℕ) (at nlines : ℕ) → Option ℕ
unfolding scan
seek_back zero file at nlines = none
seek_back (suc k) file at nlines =
    if at == 0
    then some at
    else if nlines == 0
    then some at
    else let n = bytes_to_read at in
      let from = at - n in
      resume (scan (take n (drop from file)) n nlines) from (seek_back k file from)

-- What `main` writes, given that many lines to find.
unfoldable pub tail : (file : List ℕ) (nlines : ℕ) → Option (List ℕ)
unfolding seek_back
tail file nlines =
    Option.map (λ at. drop at file) (seek_back (length file + 1) file (length file) nlines)
