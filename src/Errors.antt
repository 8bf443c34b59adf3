-- ===== src/Errors.antt =====
-- linux-api-kerrisk/error_functions.c: the error messages of the other programs, and how they end the
-- process. A call is the list of what it does, in order. Texts are lists of bytes.
use operating_systems_theory.Common.{
  ℕ, Bool, List, Option, [], false, if◌then◌else◌, leb, ltb, none, some, take, true, ◌&&◌, ◌++◌,
  ◌-◌, ◌∷◌,
}
pub mod Messages
mod Examples

abbrev pub Text : Type 0
Text = List ℕ

pub data Action : Type 0 where
  flush_stdout : Action
  flush_stderr : Action
  put_stderr : Text → Action
  abort : Action
  exit_failure : Action
  quick_exit_failure : Action

-- `BUF_SIZE`; `snprintf` keeps all but the last byte for the text.
abbrev pub buf_size : ℕ
buf_size = 500

pub snprintf : Text → Text
snprintf t = take (buf_size - 1) t

-- What the functions read: the environment variable `EF_DUMPCORE`, the table `ename` with its last
-- index `MAX_ENAME`, the messages of `strerror`, and the fixed parts of the output.
pub record World : Type 0 where
  pub dump_core : Option Text
  pub max_ename : ℕ
  pub ename : ℕ → Text
  pub strerror : ℕ → Text
  pub unknown : Text

-- `terminate`
pub terminate : World → (use_exit_3 : Bool) → List Action
terminate w use_exit_3 =
    let ends : List Action = (if use_exit_3 then exit_failure ∷ [] else quick_exit_failure ∷ []) in
    elim w.dump_core [ none ↦ ends | some [] ↦ ends | some (c ∷ cs) ↦ abort ∷ [] ]

-- The text of an error number: " [NAME message]".
error_text : World → ℕ → Text
error_text w err =
    b' ' ∷ b'[' ∷ (if ltb 0 err && leb err w.max_ename then w.ename err else w.unknown)
    ++ b' ' ∷ w.strerror err
    ++ b']' ∷ []

-- `outputError`; `user_msg` is the format with its arguments put in. An error number is at least 0.
pub output_error : World → (use_err : Bool) (err : ℕ) (flush : Bool) (user_msg : Text) → List Action
unfolding error_text
output_error w use_err err flush user_msg =
    let err_text = if use_err then snprintf (error_text w err) else b':' ∷ [] in
    let line =
      snprintf
        (b'E' ∷ b'R' ∷ b'R' ∷ b'O' ∷ b'R' ∷ err_text ++ b' ' ∷ snprintf user_msg ++ b'\n' ∷ []) in
    (if flush then flush_stdout ∷ [] else []) ++ put_stderr line ∷ flush_stderr ∷ []

-- `errMsg` with `errno` before the call: what it does, and `errno` after it, whatever the output sets
-- it to.
pub err_msg : World → (errno : ℕ) (clobbered : ℕ) → Text → List Action × ℕ
unfolding output_error
err_msg w errno clobbered msg =
    let saved_errno = errno in (output_error w true errno true msg, saved_errno)

-- `errExit`
pub err_exit_3 : World → (errno : ℕ) → Text → List Action
unfolding output_error terminate
err_exit_3 w errno msg = output_error w true errno true msg ++ terminate w true

-- `err_exit`
pub err_exit : World → (errno : ℕ) → Text → List Action
unfolding output_error terminate
err_exit w errno msg = output_error w true errno false msg ++ terminate w false

-- `errExitEN`
pub err_exit_en : World → (errnum : ℕ) → Text → List Action
unfolding output_error terminate
err_exit_en w errnum msg = output_error w true errnum true msg ++ terminate w true

-- `fatal`
pub fatal : World → Text → List Action
unfolding output_error terminate
fatal w msg = output_error w false 0 true msg ++ terminate w true

-- `usageErr` and `cmdLineErr`, with the words that they put in front.
pub usage_err : (heading : Text) → Text → List Action
usage_err heading msg =
    flush_stdout ∷ put_stderr heading ∷ put_stderr msg ∷ flush_stderr ∷ exit_failure ∷ []
