-- ===== src/Files/UserXattr.antt =====
-- linux-api-kerrisk/xattrs/userxattrchg.c: an extended attribute set on files, or taken away. Paths,
-- names and values are told apart by numbers.
use operating_systems_theory.Common.{
  ℕ, ==→eq, Bool, Bool-cases, List, Option, [], arith, false, if◌then◌else◌, inl, inr, ltb, none,
  refl, some, ◌&&◌, ◌==◌, ◌||◌, ◌∷◌, ◌≡◌,
}
mod Examples

-- What `getopt` returns, one after another.
pub data Opt : Type 0 where
  opt_n : (name : ℕ) → Opt
  opt_v : (value : ℕ) → Opt
  other : Opt

-- The value that each file has for each attribute, if it has any.
abbrev pub Disk : Type 0
Disk = (path name : ℕ) → Option ℕ

pub data Outcome : Type 0 where
  usage : Outcome
  done : Disk → Outcome

-- The loop over the options: `nam` and `val`; `none` for an unknown option.
unfoldable pub parse : List Opt → (nam val : Option ℕ) → Option (Option ℕ × Option ℕ)
parse [] nam val = some (nam, val)
parse (opt_n name ∷ opts) nam val = parse opts (some name) val
parse (opt_v value ∷ opts) nam val = parse opts nam (some value)
parse (other ∷ opts) nam val = none

-- `setxattr` or `removexattr` on one file, which leaves everything as it is where it fails.
unfoldable pub change : (succeeds : ℕ → Bool) (nam : ℕ) (val : Option ℕ) → (path : ℕ) → Disk → Disk
change succeeds nam val path disk p a =
    if succeeds path && ((path == p) && (nam == a)) then val else disk p a

-- The loop over the paths. After a failure it goes on.
unfoldable pub change_all : (succeeds : ℕ → Bool) (nam : ℕ) (val : Option ℕ) → List ℕ → Disk → Disk
unfolding change
change_all succeeds nam val [] disk = disk
change_all succeeds nam val (path ∷ paths) disk =
    change_all succeeds nam val paths (change succeeds nam val path disk)

-- What is done for the paths behind the options, given what the options say.
abbrev pub act : (succeeds : ℕ → Bool) → Option (Option ℕ × Option ℕ) → List ℕ → Disk → Outcome
act succeeds none paths disk = usage
act succeeds (some (none, val)) paths disk = usage
act succeeds (some (some nam, val)) [] disk = usage
act succeeds (some (some nam, val)) (path ∷ paths) disk =
    done (change_all succeeds nam val (path ∷ paths) disk)

unfoldable pub main :
    (argc : ℕ) (succeeds : ℕ → Bool) → List Opt → (paths : List ℕ) → Disk → Outcome
unfolding parse change_all
main argc succeeds opts paths disk =
    if ltb argc 3 then usage else act succeeds (parse opts none none) paths disk

unfoldable pub elem : ℕ → List ℕ → Bool
elem p [] = false
elem p (path ∷ paths) = (path == p) || elem p paths

change-elem :
    (succeeds : ℕ → Bool) (nam : ℕ) (val : Option ℕ) (path : ℕ) (disk : Disk) (p a : ℕ)
    → change succeeds nam val path disk p a
      ≡ (if (path == p) && (succeeds p && (nam == a)) then val else disk p a)
unfolding change
change-elem succeeds nam val path disk p a = elim (Bool-cases (path == p)) [
  | inl e ↦ rw (==→eq path p e) (ground arith)
  | inr e ↦ rw e (ground arith)
]

change_all-elem :
    (succeeds : ℕ → Bool) (nam : ℕ) (val : Option ℕ) (paths : List ℕ) (disk : Disk) (p a : ℕ)
    → change_all succeeds nam val paths disk p a
      ≡ (if elem p paths && (succeeds p && (nam == a)) then val else disk p a)
unfolding change_all elem
change_all-elem succeeds nam val [] disk p a = refl
change_all-elem succeeds nam val (path ∷ paths) disk p a = ground (
  arith,
  change_all-elem succeeds nam val paths (change succeeds nam val path disk) p a,
  change-elem succeeds nam val path disk p a,
)

-- With at least three arguments, options that are all known and among them a name, and at least one
-- path, the program finishes. Then every file that was named and whose call succeeds has the value
-- for the name, or no such attribute where no value was given, and nothing else is changed.
pub main-elem :
    (argc : ℕ) (succeeds : ℕ → Bool) (opts : List Opt) (path : ℕ) (paths : List ℕ) (disk : Disk)
    (nam : ℕ) (val : Option ℕ)
    → ltb argc 3 ≡ false
    → parse opts none none ≡ some (some nam, val)
    → (disk' : Disk) × (main argc succeeds opts (path ∷ paths) disk ≡ done disk')
      × ((p a : ℕ)
          → disk' p a
            ≡ (if elem p (path ∷ paths) && (succeeds p && (nam == a)) then val else disk p a))
unfolding main
main-elem argc succeeds opts path paths disk nam val enough named = (
  change_all succeeds nam val (path ∷ paths) disk,
  rw (enough, named) refl,
  λ p a. change_all-elem succeeds nam val (path ∷ paths) disk p a,
)
