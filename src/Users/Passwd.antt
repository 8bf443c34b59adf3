-- ===== src/Users/Passwd.antt =====
-- linux-api-kerrisk/getpwnam.c: the entry of a user in the password database.
use operating_systems_theory.Common.{
  ℕ, Bool, List, Option, [], arith, false, if◌then◌else◌, none, refl, some, true, ◌∷◌, ◌≡◌,
}
use Prim.Native.String.{String}
use text.Mathlib.Text.{◌==◌ as str_eq}
mod Examples

-- `struct passwd`
pub record Passwd : Type 0 where
  pub name : String
  pub passwd : String
  pub uid : ℕ
  pub gid : ℕ
  pub gecos : String
  pub dir : String
  pub shell : String

-- `copy`: field by field, `strdup` of each text succeeding.
pub copy : Passwd → Passwd
copy src = record {
  name = src.name;
  passwd = src.passwd;
  uid = src.uid;
  gid = src.gid;
  gecos = src.gecos;
  dir = src.dir;
  shell = src.shell;
}

-- The loop over the database: `found`, and the static entry. It goes on behind a match.
pub loop : String → List Passwd → (found : Bool) (retv : Passwd) → Bool × Passwd
unfolding copy
loop name [] found retv = (found, retv)
loop name (pw ∷ db) found retv =
    let (found', retv') : Bool × Passwd =
      if str_eq pw.name name then (true, copy pw) else (found, retv) in
    loop name db found' retv'

-- `_getpwnam`, with the static entry that an earlier call left: the result, and the static entry.
pub getpwnam : (retv : Passwd) → List Passwd → String → Option Passwd × Passwd
unfolding loop
getpwnam retv db name =
    let (found, retv') = loop name db false retv in (if found then some retv' else none, retv')

-- The last entry with a name, if there is one.
unfoldable pub last_match : String → List Passwd → Option Passwd
last_match name [] = none
last_match name (pw ∷ db) = elim (last_match name db) [
  | some later ↦ some later
  | none ↦ if str_eq pw.name name then some pw else none
]

or_else : Option Passwd → Option Passwd → Option Passwd
or_else (some a) b = some a
or_else none b = b

loop-last :
    (name : String) (db : List Passwd) (found : Bool) (retv : Passwd)
    → loop name db found retv
      ≡ elim (last_match name db) [ some pw ↦ (true, pw) | none ↦ (found, retv) ]
unfolding loop last_match
loop-last name [] found retv = refl
loop-last name (pw ∷ db) found retv =
    ground (arith, loop-last name db true pw, loop-last name db found retv)

-- `_getpwnam` returns the last entry of the database with the name, where the library's `getpwnam`
-- returns the first, and NULL exactly if there is none, whatever an earlier call left behind.
pub getpwnam-last :
    (retv : Passwd) (db : List Passwd) (name : String)
    → (getpwnam retv db name).0 ≡ last_match name db
unfolding getpwnam
getpwnam-last retv db name = ground (arith, loop-last name db false retv)

-- The result of a first call is static: a second call that finds an entry overwrites it.
pub getpwnam_overwrites :
    (retv : Passwd) (db : List Passwd) (name : String) (pw : Passwd)
    → last_match name db ≡ some pw
    → (getpwnam retv db name).1 ≡ pw
unfolding getpwnam
getpwnam_overwrites retv db name pw h = ground (arith, loop-last name db false retv)
