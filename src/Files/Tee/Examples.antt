-- ===== src/Files/Tee/Examples.antt =====
-- mytee.c with `-a` and one file.
use operating_systems_theory.Common.{ℕ, List, [], refl, true, false, ◌∷◌, ◌≡◌}
use Prim.Native.String.{String}
use operating_systems_theory.Files.Tee.{
  appends, fds_size, open_all, sentinel-out_of_bounds, sentinel_index, usage,
}

abbrev log_disk : String → List ℕ
log_disk name = b'x' ∷ []

sentinel-out_of_bounds_test : sentinel_index log_disk ("log" ∷ []) ≡ fds_size ("log" ∷ [])
sentinel-out_of_bounds_test = sentinel-out_of_bounds log_disk ("log" ∷ [])

-- With `-a`, a file of that name is opened as well.
open_all_test :
    open_all (appends ("-a" ∷ "log" ∷ [])) log_disk ("-a" ∷ "log" ∷ [])
    ≡ ("-a", b'x' ∷ []) ∷ ("log", b'x' ∷ []) ∷ []
unfolding open_all appends
open_all_test = refl

usage_test : (usage [] ≡ true) × (usage ("-a" ∷ []) ≡ true) × (usage ("log" ∷ []) ≡ false)
unfolding usage
usage_test = (refl, refl, refl)
