-- ===== src/Users/Passwd/Examples.antt =====
-- getpwnam.c on a database that has a name twice.
use operating_systems_theory.Common.{ℕ, List, [], none, refl, some, ◌∷◌, ◌≡◌}
use Prim.Native.String.{String}
use operating_systems_theory.Users.Passwd.{Passwd, copy, getpwnam, getpwnam-last, last_match, loop}

abbrev entry : String → ℕ → Passwd
entry name uid = record {
  name = name;
  passwd = "x";
  uid = uid;
  gid = 0;
  gecos = "";
  dir = "home";
  shell = "sh";
}

abbrev db : List Passwd
db = entry "ann" 1 ∷ entry "bob" 2 ∷ entry "ann" 3 ∷ []

getpwnam-last_test : (getpwnam (entry "" 0) db "ann").0 ≡ last_match "ann" db
getpwnam-last_test = getpwnam-last (entry "" 0) db "ann"

getpwnam_test :
    ((getpwnam (entry "" 0) db "ann").0 ≡ some (entry "ann" 3))
    × ((getpwnam (entry "ann" 1) db "eve").0 ≡ none)
unfolding getpwnam loop copy
getpwnam_test = (refl, refl)
