-- ===== src/Memory/Environment.antt =====
-- linux-api-kerrisk/proc/envmanip.c: `setenv` over `putenv`, with one buffer for all the strings that it
-- puts into the environment. `putenv` keeps a pointer to its argument, so an entry is the buffer or
-- another string.
use operating_systems_theory.Common.{
  not, ltb, length, Bool, List, Option, [], false, if◌then◌else◌, none, some, true, ◌++◌, ◌∷◌, ◌||◌,
  ◌==◌, ℕ,
}
use operating_systems_theory.Common.Text.{Text}
pub mod Forgetting
mod Examples

pub data Entry : Type 0 where
  shared : Entry
  own : Text → Entry

-- `environ` and `ebuf`
pub record Env : Type 0 where
  pub entries : List Entry
  pub ebuf : Text

abbrev pub text_of : (ebuf : Text) → Entry → Text
text_of ebuf shared = ebuf
text_of ebuf (own s) = s

-- What an entry gives for a name: the bytes behind the name and the `=`.
unfoldable pub value_of : (name s : Text) → Option Text
value_of [] [] = none
value_of [] (d ∷ s) = if d == b'=' then some s else none
value_of (c ∷ name) [] = none
value_of (c ∷ name) (d ∷ s) = if c == d then value_of name s else none

abbrev pub or_else : Option Text → Option Text → Option Text
or_else none other = other
or_else (some v) other = some v

unfoldable pub find : (ebuf : Text) (entries : List Entry) (name : Text) → Option Text
find ebuf [] name = none
find ebuf (entry ∷ entries) name =
    or_else (value_of name (text_of ebuf entry)) (find ebuf entries name)

abbrev pub getenv : Env → (name : Text) → Option Text
getenv env name = find env.ebuf env.entries name

abbrev pub is_some : Option Text → Bool
is_some none = false
is_some (some v) = true

-- `putenv(ebuf)`, for a buffer with the name: the buffer in place of the first entry of that name, or
-- behind all entries.
unfoldable pub put : (ebuf name : Text) → List Entry → List Entry
put ebuf name [] = shared ∷ []
put ebuf name (entry ∷ entries) =
    let rest = put ebuf name entries in
    if is_some (value_of name (text_of ebuf entry)) then shared ∷ entries else entry ∷ rest

-- The size of `ebuf`, into which `stpcpy` copies without a test.
abbrev pub ebuf_size : ℕ
ebuf_size = 1024

abbrev pub filled : (name value : Text) → Text
filled name value = name ++ b'=' ∷ value

-- The copy into the buffer and `putenv`; `none` where the text and its zero byte go beyond the buffer,
-- after which nothing is known of the memory.
abbrev pub overwrite_with : (name value : Text) → Env → Option Env
overwrite_with name value env =
    if ltb (length (filled name value)) ebuf_size
    then some
        (record { entries = put (filled name value) name env.entries; ebuf = filled name value })
    else none

unfoldable pub setenv : (name value : Text) (overwrite : Bool) → Env → Option Env
setenv name value overwrite env =
    if not (is_some (getenv env name)) || overwrite then overwrite_with name value env else some env

-- The entries that are strings of their own have no value for the name.
unfoldable pub has_own : (name : Text) → List Entry → Bool
has_own name [] = false
has_own name (shared ∷ entries) = has_own name entries
has_own name (own s ∷ entries) = is_some (value_of name s) || has_own name entries
