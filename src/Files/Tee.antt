-- ===== src/Files/Tee.antt =====
-- linux-api-kerrisk/fileio/mytee.c: the arguments, and the loop that opens the files. The copying loop is
-- left out.
use operating_systems_theory.Common.{
  ℕ, Bool, List, [], ap, false, if◌then◌else◌, length, refl, suc, true, ◌∷◌, ◌≡◌,
}
use Prim.Native.String.{String}
use text.Mathlib.Text.{◌==◌ as str_eq}
mod Examples

-- `argv` from index 1 on. The usage message of `main` comes for no argument, or for `-a` alone.
pub usage : List String → Bool
usage [] = true
usage (a ∷ []) = str_eq a "-a"
usage (a ∷ b ∷ args) = false

-- Whether to append: `strcmp(argv[1], "-a") == 0`.
pub appends : List String → Bool
appends [] = false
appends (a ∷ args) = str_eq a "-a"

-- A file by its name and what it holds; opening truncates or keeps.
abbrev pub File : Type 0
File = String × List ℕ

-- The loop that opens every argument from index 1 on: the descriptors that it stores, as the file with
-- what it holds then. Every `open` succeeds; `disk` is what a file holds before.
pub open_all : (append : Bool) (disk : String → List ℕ) → List String → List File
open_all append disk [] = []
open_all append disk (a ∷ args) = (a, if append then disk a else []) ∷ open_all append disk args

-- `int fds[argc - 1]`, and the index of the store `fds[j] = -1` behind the opening loop.
pub fds_size : List String → ℕ
fds_size args = length args

pub sentinel_index : (disk : String → List ℕ) → List String → ℕ
unfolding open_all appends
sentinel_index disk args = length (open_all (appends args) disk args)

-- The store of the sentinel is always behind the end of the array of descriptors.
pub sentinel-out_of_bounds :
    (disk : String → List ℕ) (args : List String) → sentinel_index disk args ≡ fds_size args
unfolding sentinel_index fds_size
sentinel-out_of_bounds disk args = counted (appends args) args
  where
    counted : (b : Bool) (l : List String) → length (open_all b disk l) ≡ length l
    counted b [] = refl
    counted b (a ∷ l) = ap suc (counted b l)
