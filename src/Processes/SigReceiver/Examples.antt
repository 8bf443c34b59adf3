-- ===== src/Processes/SigReceiver/Examples.antt =====
-- sig_receiver.c: two times SIGHUP, then SIGINT.
use operating_systems_theory.Common.{
  ℕ, List, [], arith, if◌then◌else◌, none, some, ◌++◌, ◌<◌, ◌==◌, ◌∷◌, ◌≡◌, ◌≤◌, refl,
}
use operating_systems_theory.Processes.SigReceiver.{
  main, main-count, sigint, nsig, lookup, count, handler, report, wait_loop,
}
use operating_systems_theory.Processes.SigReceiver.Blocked.{
  deliver_all, is_member, main_sleeping, members, pending, print_sigset, sigset_loop,
}

main-count_test :
    (r : List (ℕ × ℕ)) × (main ((1 ∷ 1 ∷ []) ++ sigint ∷ 15 ∷ []) ≡ some r)
    × ((n : ℕ)
        → 1 ≤ n
        → n < nsig
        → lookup n r ≡ (if count n (1 ∷ 1 ∷ []) == 0 then none else some (count n (1 ∷ 1 ∷ []))))
main-count_test = main-count (1 ∷ 1 ∷ []) (15 ∷ []) (omega arith, (omega arith, tt))

main_sleeping_test :
    main_sleeping (1 ∷ 40 ∷ 1 ∷ 40 ∷ []) (1 ∷ 2 ∷ [])
    ≡ (members (1 ∷ 40 ∷ []), some ((1, 2) ∷ (40, 2) ∷ []))
unfolding main_sleeping pending is_member print_sigset sigset_loop deliver_all handler wait_loop
    report
main_sleeping_test = refl
