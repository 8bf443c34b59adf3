-- ===== src/Files/FileTrend/Examples.antt =====
-- filetrend.c on a regular file, a directory and a socket.
use operating_systems_theory.Common.{ℕ, List, [], arith, inl, inr, length, refl, some, ◌∷◌, ◌≡◌}
use operating_systems_theory.Files.FileTrend.{
  all_files, common_bit, has_bits, incstats, no_files, percent, walk, walk-all, walk-confused,
}

abbrev visited : List ℕ
visited = 0o100644 ∷ 0o040755 ∷ 0o140777 ∷ []

walk-all_test : all_files (walk visited no_files) ≡ length visited
walk-all_test =
    walk-all visited
      ((omega arith, omega arith), ((omega arith, omega arith), ((omega arith, omega arith), tt)))

walk-confused_test :
    ((walk visited no_files).blokdevs ≡ 0)
    × ((walk visited no_files).sockets ≡ 0)
    × ((walk visited no_files).symlinks ≡ 0)
walk-confused_test = walk-confused visited (
  inr (inr (inr (inr (inl (omega arith, omega arith))))),
  (
    inr (inr (inl (omega arith, omega arith))),
    (inr (inr (inr (inr (inr (inr (omega arith, omega arith)))))), tt),
  ),
)

percent_test : percent 2 (walk visited no_files) ≡ some 66
unfolding percent all_files walk incstats has_bits common_bit
percent_test = refl
