-- ===== src/Users/InitGroups/Examples.antt =====
-- initgroups.c on a database of three groups.
use operating_systems_theory.Common.{
  List, [], if◌then◌else◌, length, ltb, not, refl, true, ◌++◌, ◌∷◌, ◌≡◌,
}
use operating_systems_theory.Users.InitGroups.{
  Group, System, apply, collect, groups_of, initgroups, initgroups-groups_of, is_member, result,
  einval, seteuid_failed, not_restored,
}

abbrev db : List Group
db =
    record { gid = 10; members = "ann" ∷ "bob" ∷ [] }
    ∷ record { gid = 20; members = "bob" ∷ [] }
    ∷ record { gid = 30; members = "ann" ∷ [] }
    ∷ []

abbrev willing : System
willing = record { becomes_root = true; sets_groups = true; restores = true }

initgroups-groups_of_example : initgroups 3 willing db "ann" 5 ≡ (
    if ltb (length (groups_of "ann" db)) 3
    then (if not willing.becomes_root
        then seteuid_failed
        else if not willing.restores
        then not_restored (groups_of "ann" db ++ 5 ∷ [])
        else result (groups_of "ann" db ++ 5 ∷ []) willing.sets_groups)
    else einval)
initgroups-groups_of_example = initgroups-groups_of 3 willing db "ann" 5

initgroups_test :
    (initgroups 3 willing db "ann" 5 ≡ result (10 ∷ 30 ∷ 5 ∷ []) true)
    × (initgroups 2 willing db "ann" 5 ≡ einval)
unfolding initgroups apply collect is_member
initgroups_test = (refl, refl)
