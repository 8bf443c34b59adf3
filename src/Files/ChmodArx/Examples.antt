-- ===== src/Files/ChmodArx/Examples.antt =====
-- chmoda+rX.c on a private program and on a file in the place of `argv[0]`.
use operating_systems_theory.Common.{
  [], if◌then◌else◌, none, refl, some, ◌%◌, ◌*◌, ◌+◌, ◌/◌, ◌==◌, ◌∷◌, ◌≡◌, ◌⊎◌,
}
use operating_systems_theory.Files.ChmodArx.{
  Disk, has_bit, main_loop, main_loop-argv0, perms, perms-cases,
}

perms-cases_test :
    ((perms 0o100700 ≡ 0o555)
      × ((0o100700 / 0o040000 % 2 ≡ 1)
          ⊎ ((0o100700 / 0o100 % 2 ≡ 1) ⊎ ((0o100700 / 0o010 % 2 ≡ 1) ⊎ (0o100700 % 2 ≡ 1)))))
    ⊎ ((perms 0o100700 ≡ 0o444)
        × (0o100700 / 0o040000 % 2 ≡ 0)
        × (0o100700 / 0o100 % 2 ≡ 0)
        × (0o100700 / 0o010 % 2 ≡ 0)
        × (0o100700 % 2 ≡ 0))
perms-cases_test = perms-cases 0o100700

abbrev tool_disk : Disk
tool_disk path = if 1 == path then some 0o100700 else none

main_loop-argv0_test :
    (disk' : Disk) × (main_loop (1 ∷ []) tool_disk ≡ some disk')
    × (disk' 1 ≡ some (0o100700 / 4096 * 4096 + perms 0o100700))
main_loop-argv0_test = main_loop-argv0 1 0o100700 tool_disk refl

perms_test : (perms 0o100700 ≡ 0o555) × (perms 0o100622 ≡ 0o444)
unfolding perms has_bit
perms_test = (refl, refl)
