-- ===== src/Processes/UserProcs/Examples.antt =====
-- useract.c with a directory entry, a process that is gone and two processes of two users.
use operating_systems_theory.Common.{
  List, Option, [], none, refl, some, ◌∷◌, ◌≡◌, if◌then◌else◌, arith,
}
use operating_systems_theory.Common.Int.{pos}
use operating_systems_theory.Common.Decimal.{print, read_number, read_digits, low_digits}
use operating_systems_theory.Common.Text.{Text, text_eq, starts_with, lacks}
use operating_systems_theory.Processes.FdUsers.{skip_spaces}
use operating_systems_theory.Processes.UserProcs.{
  run, digits_value, finished, is_skipped, not_opened, shown, status_path, strtol,
}
use operating_systems_theory.Processes.UserProcs.Status.{status_lines, all_plain}
use operating_systems_theory.Processes.UserProcs.Listing.{
  run-outputs, IsStatus, Row, Table, empty, gone, no_process, outputs, passed_over, process,
  readable, row_output, status, unreadable,
}

abbrev sh_lines : List Text
sh_lines =
    status_lines [] (b's' ∷ b'h' ∷ []) ((b'U' ∷ b'm' ∷ []) ∷ []) 7 (b'7' ∷ b'\n' ∷ [])
      ((b'G' ∷ []) ∷ [])

abbrev vi_lines : List Text
vi_lines = status_lines [] (b'v' ∷ b'i' ∷ []) [] 12 (b'7' ∷ b'\n' ∷ []) []

-- Process 4 is the shell of user 7, process 5 an editor of user 12.
abbrev files : Text → Option (List Text)
files path =
    if text_eq path (status_path (b'4' ∷ []))
    then some sh_lines
    else if text_eq path (status_path (b'5' ∷ []))
    then some vi_lines
    else none

abbrev entries : List Text
entries = (b'.' ∷ []) ∷ (b'3' ∷ []) ∷ (b'4' ∷ []) ∷ (b'5' ∷ []) ∷ []

abbrev rows : List Row
rows = no_process ∷ gone ∷ process 4 7 (b's' ∷ b'h' ∷ []) ∷ process 5 12 (b'v' ∷ b'i' ∷ []) ∷ []

sh-IsStatus : IsStatus (b's' ∷ b'h' ∷ []) 7 sh_lines
unfolding all_plain starts_with lacks print low_digits
sh-IsStatus =
    status [] ((b'U' ∷ b'm' ∷ []) ∷ []) ((b'G' ∷ []) ∷ []) (b'7' ∷ b'\n' ∷ []) refl refl refl
      (omega arith) (omega arith)

vi-IsStatus : IsStatus (b'v' ∷ b'i' ∷ []) 12 vi_lines
unfolding all_plain starts_with lacks print low_digits
vi-IsStatus = status [] [] [] (b'7' ∷ b'\n' ∷ []) refl refl refl (omega arith) (omega arith)

table : Table files entries rows
unfolding is_skipped strtol digits_value skip_spaces read_number read_digits text_eq
table = passed_over (b'.' ∷ []) refl (
    unreadable (b'3' ∷ []) refl refl (
      readable (b'4' ∷ []) 4 7 (b's' ∷ b'h' ∷ []) sh_lines refl (omega arith) refl sh-IsStatus (
        readable (b'5' ∷ []) 5 12 (b'v' ∷ b'i' ∷ []) vi_lines refl (omega arith) refl vi-IsStatus
          empty)))

run-outputs_example :
    run (λ name. some 7) files (some entries) ((b'u' ∷ []) ∷ []) ≡ finished (outputs 7 rows)
run-outputs_example = run-outputs (λ name. some 7) files (b'u' ∷ []) 7 refl (omega arith) table

outputs_test : outputs 7 rows ≡ not_opened ∷ shown (pos 4) (b's' ∷ b'h' ∷ []) ∷ []
unfolding outputs row_output
outputs_test = refl
