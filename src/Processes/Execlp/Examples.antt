-- ===== src/Processes/Execlp/Examples.antt =====
-- execlp.c with `ls -l`, and two directories in `PATH`, of which the second has the program.
use operating_systems_theory.Common.{
  Bool, List, [], false, get_or, map, refl, true, ◌++◌, ◌==◌, ◌∷◌, ◌≡◌, ◌⊎◌,
}
use operating_systems_theory.Processes.Execlp.{
  Text, build_argv, arg, null, count_args, store_args, next_arg, execlp, execve, not_found,
  has_slash, tokens, path_contains, search,
}
use operating_systems_theory.Processes.Execlp.Arguments.{build_argv-args}
use operating_systems_theory.Processes.Execlp.Search.{
  IsSplit, execlp-IsFirst, IsFirst, NoneExecutable,
}

abbrev ls : Text
ls = b'l' ∷ b's' ∷ []

-- "/a::/b"
abbrev search_path : Text
search_path = b'/' ∷ b'a' ∷ b':' ∷ b':' ∷ b'/' ∷ b'b' ∷ []

-- The program is "/b/ls".
abbrev in_second : Text → Bool
in_second path = get_or path 1 0 == b'b'

build_argv-args_test :
    build_argv ls ((b'-' ∷ b'l' ∷ []) ∷ [])
    ≡ arg ls ∷ map arg ((b'-' ∷ b'l' ∷ []) ∷ []) ++ null ∷ []
build_argv-args_test = build_argv-args ls ((b'-' ∷ b'l' ∷ []) ∷ [])

execlp-IsFirst_example :
    (dirs : List Text) × IsSplit search_path dirs
    × (((has_slash ls ≡ true)
          × (execlp 4096 in_second search_path ls [] ≡ execve ls (build_argv ls [])))
        ⊎ (((has_slash ls ≡ false)
              × (execlp 4096 in_second search_path ls [] ≡ not_found)
              × NoneExecutable 4096 in_second ls dirs)
            ⊎ ((fullpath : Text) × (has_slash ls ≡ false)
                × (execlp 4096 in_second search_path ls [] ≡ execve fullpath (build_argv ls []))
                × IsFirst 4096 in_second ls dirs fullpath)))
execlp-IsFirst_example = execlp-IsFirst 4096 in_second search_path ls []

execlp_test :
    execlp 4096 in_second search_path ls [] ≡ execve (b'/' ∷ b'b' ∷ b'/' ∷ ls) (arg ls ∷ null ∷ [])
unfolding execlp has_slash path_contains search tokens build_argv count_args store_args next_arg
execlp_test = refl
