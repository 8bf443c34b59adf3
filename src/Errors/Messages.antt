-- ===== src/Errors/Messages.antt =====
-- error_functions.c: how long a message can get, in what order things happen, and how a call ends.
use operating_systems_theory.Common.{
  ℕ, Bool, List, Option, [], append-nil, arith, false, if◌then◌else◌, length, none, refl, some, suc,
  take, true, zero, ◌++◌, ◌<◌, ◌∷◌, ◌≡◌, ◌≤◌,
}
use operating_systems_theory.Errors.{
  World, Action, Text, abort, buf_size, err_exit, err_exit_3, err_exit_en, err_msg, exit_failure,
  fatal, flush_stderr, flush_stdout, output_error, put_stderr, quick_exit_failure, terminate,
  snprintf,
}

-- `EF_DUMPCORE` is set to a text that is not empty.
abbrev pub dumps : Option Text → Bool
dumps none = false
dumps (some []) = false
dumps (some (c ∷ cs)) = true

length-take : (n : ℕ) (t : Text) → length (take n t) ≤ n
length-take zero t = omega arith
length-take (suc n) [] = omega arith
length-take (suc n) (c ∷ t) = omega (arith, length-take n t)

length-snprintf : (t : Text) → length (snprintf t) < buf_size
unfolding snprintf
length-snprintf t = omega (arith, length-take 499 t)

-- What a call does: it may flush standard output, writes one line of less than 500 bytes to standard
-- error, flushes that, and goes on with `rest`.
abbrev pub Reports : (flush : Bool) (rest actions : List Action) → Type 0
Reports flush rest actions =
    (line : Text) × (length line < buf_size)
    × (actions ≡ (if flush then flush_stdout ∷ [] else []) ++ put_stderr line ∷ flush_stderr ∷ rest)

abbrev pub ending : (dump : Option Text) (use_exit_3 : Bool) → Action
ending dump b = if dumps dump then abort else if b then exit_failure else quick_exit_failure

terminate-ending :
    (w : World) (b : Bool) (o : Option Text) → w.dump_core ≡ o → terminate w b ≡ ending o b ∷ []
unfolding terminate
terminate-ending w true none e = rw e refl
terminate-ending w false none e = rw e refl
terminate-ending w true (some []) e = rw e refl
terminate-ending w false (some []) e = rw e refl
terminate-ending w b (some (c ∷ cs)) e = rw e refl

output_error-Reports :
    (w : World) (use_err : Bool) (err : ℕ) (flush : Bool) (msg : Text) (rest : List Action)
    → Reports flush rest (output_error w use_err err flush msg ++ rest)
unfolding output_error
output_error-Reports w use_err err true msg rest = (_, length-snprintf _, refl)
output_error-Reports w use_err err false msg rest = (_, length-snprintf _, refl)

output_error-terminate :
    (w : World) (use_err : Bool) (err : ℕ) (flush b : Bool) (msg : Text)
    → Reports flush
        (ending w.dump_core b ∷ [])
        (output_error w use_err err flush msg ++ terminate w b)
output_error-terminate w use_err err flush b msg =
    rw (terminate-ending w b w.dump_core refl) (output_error-Reports w use_err err flush msg _)

-- The exit functions report and end the process, by `abort` exactly if `EF_DUMPCORE` is set and not
-- empty. Otherwise `errExit`, `errExitEN` and `fatal` end it by `exit`, and `err_exit`, which alone
-- does not flush standard output, by `_exit`.
pub exits_lem :
    (w : World) (errno errnum : ℕ) (msg : Text)
    → Reports true (ending w.dump_core true ∷ []) (err_exit_3 w errno msg)
      × Reports true (ending w.dump_core true ∷ []) (err_exit_en w errnum msg)
      × Reports true (ending w.dump_core true ∷ []) (fatal w msg)
      × Reports false (ending w.dump_core false ∷ []) (err_exit w errno msg)
unfolding err_exit_3 err_exit_en fatal err_exit
exits_lem w errno errnum msg = (
  output_error-terminate w true errno true true msg,
  output_error-terminate w true errnum true true msg,
  output_error-terminate w false 0 true true msg,
  output_error-terminate w true errno false false msg,
)

-- `errMsg` reports and returns, and leaves `errno` as it was, whatever the output does to it.
pub err_msg-errno :
    (w : World) (errno clobbered : ℕ) (msg : Text)
    → Reports true [] (err_msg w errno clobbered msg).0
      × ((err_msg w errno clobbered msg).1 ≡ errno)
unfolding err_msg
err_msg-errno w errno clobbered msg = (
  rw (append-nil (output_error w true errno true msg)) at
      (output_error-Reports w true errno true msg []),
  refl,
)
