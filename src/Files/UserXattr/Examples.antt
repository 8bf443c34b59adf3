-- ===== src/Files/UserXattr/Examples.antt =====
-- userxattrchg.c: attribute 7 of the files 1 and 2 set to 9.
use operating_systems_theory.Common.{
  ℕ, [], if◌then◌else◌, none, refl, some, true, ◌&&◌, ◌==◌, ◌∷◌, ◌≡◌,
}
use operating_systems_theory.Files.UserXattr.{
  Disk, opt_n, opt_v, parse, main, main-elem, elem, done, change_all, change,
}

abbrev bare_disk : Disk
bare_disk p a = none

main-elem_test :
    (disk' : Disk) × (main 5 (λ p. true) (opt_n 7 ∷ opt_v 9 ∷ []) (1 ∷ 2 ∷ []) bare_disk
      ≡ done disk')
    × ((p a : ℕ)
        → disk' p a ≡ (if elem p (1 ∷ 2 ∷ []) && (true && (7 == a)) then some 9 else bare_disk p a))
unfolding parse
main-elem_test =
    main-elem 5 (λ p. true) (opt_n 7 ∷ opt_v 9 ∷ []) 1 (2 ∷ []) bare_disk 7 (some 9) refl refl

change_all_test : change_all (λ p. true) 7 none (1 ∷ []) (λ p a. some 5) 1 7 ≡ none
unfolding change_all change
change_all_test = refl
