-- ===== src/Processes/Execlp.antt =====
-- linux-api-kerrisk/process-execution/execlp.c: `execlp` from `execve`: the argument vector, and the
-- search for the program along `PATH`. Texts are lists of bytes.
use operating_systems_theory.Common.{
  ℕ, Bool, List, Option, [], false, if◌then◌else◌, none, replicate, set, some, suc, take, zero,
  ◌++◌, ◌+◌, ◌-◌, ◌==◌, ◌||◌, ◌∷◌,
}
pub mod Arguments
pub mod Search
mod Examples

abbrev pub Text : Type 0
Text = List ℕ

-- A place of `argv`, which `malloc` leaves as it is.
pub data Slot : Type 0 where
  unset : Slot
  null : Slot
  arg : Text → Slot

-- `va_arg`: the next argument, NULL behind the last one.
pub next_arg : List Text → Slot
next_arg [] = null
next_arg (a ∷ args) = arg a

abbrev pub later : List Text → List Text
later [] = []
later (a ∷ args) = args

-- The loop that counts the arguments up to NULL.
unfoldable pub count_args : List Text → (argc : ℕ) → ℕ
count_args [] argc = argc
count_args (a ∷ args) argc = count_args args (argc + 1)

-- The loop that stores them, with `rounds` left from `argv[i]` on.
unfoldable pub store_args : (rounds i : ℕ) → List Text → List Slot → List Slot
unfolding next_arg
store_args zero i args argv = argv
store_args (suc n) i args argv = store_args n (i + 1) (later args) (set argv i (next_arg args))

-- The first half of `_execlp`: `argv` of `argc + 1` places, which `malloc` grants.
unfoldable pub build_argv : (pathname : Text) → List Text → List Slot
unfolding count_args store_args
build_argv pathname args =
    let argc = count_args args 1 in
    let argv = set (replicate (argc + 1) unset) 0 (arg pathname) in
    set (store_args (argc - 1) 1 args argv) argc null

-- `strtok` with ":": the parts between colons that are not empty.
abbrev pub emit : Text → List Text → List Text
emit [] parts = parts
emit (c ∷ cs) parts = (c ∷ cs) ∷ parts

unfoldable pub tokens : Text → (part : Text) → List Text
tokens [] part = emit part []
tokens (c ∷ cs) part =
    let next = tokens cs [] in
    let more = tokens cs (part ++ c ∷ []) in if c == b':' then emit part next else more

-- `snprintf(fullpath, PATH_MAX, "%s/%s", dir, filename)`
abbrev pub candidate : (path_max : ℕ) → (dir filename : Text) → Text
candidate path_max dir filename = take (path_max - 1) (dir ++ b'/' ∷ filename)

-- The loop of `PATHContains`; `executable` says whether `stat` finds a regular file that its owner may
-- execute.
unfoldable pub search : (path_max : ℕ) (executable : Text → Bool) → Text → List Text → Option Text
search path_max executable filename [] = none
search path_max executable filename (dir ∷ dirs) =
    let rest = search path_max executable filename dirs in
    let fullpath = candidate path_max dir filename in
    if executable fullpath then some fullpath else rest

-- `PATHContains`, with the value of `PATH`, which is set.
unfoldable pub path_contains :
    (path_max : ℕ) (executable : Text → Bool) (path filename : Text) → Option Text
unfolding search tokens
path_contains path_max executable path filename =
    search path_max executable filename (tokens path [])

unfoldable pub has_slash : Text → Bool
has_slash [] = false
has_slash (c ∷ cs) = (c == b'/') || has_slash cs

-- What `_execlp` comes to: `execve` of a path with an argument vector, or a message that there is no
-- such command.
pub data Outcome : Type 0 where
  execve : Text → List Slot → Outcome
  not_found : Outcome

unfoldable pub execlp :
    (path_max : ℕ) (executable : Text → Bool) (path pathname : Text) → List Text → Outcome
unfolding build_argv path_contains has_slash
execlp path_max executable path pathname args =
    let argv = build_argv pathname args in
    if has_slash pathname
    then execve pathname argv
    else elim (path_contains path_max executable path pathname) [
      | some fullpath ↦ execve fullpath argv
      | none ↦ not_found
    ]
