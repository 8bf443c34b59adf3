-- ===== src/Errors/Examples.antt =====
-- error_functions.c with `EF_DUMPCORE` unset.
use operating_systems_theory.Common.{[], false, none, refl, true, ◌∷◌, ◌≡◌}
use operating_systems_theory.Errors.{
  World, err_exit, err_exit_3, err_exit_en, fatal, flush_stderr, flush_stdout, exit_failure,
  put_stderr, usage_err,
}
use operating_systems_theory.Errors.Messages.{Reports, ending, exits_lem}

abbrev world : World
world = record {
  dump_core = none;
  max_ename = 133;
  ename = λ err. b'E' ∷ [];
  strerror = λ err. b'm' ∷ [];
  unknown = b'?' ∷ [];
}

exits_lem_test :
    Reports true (ending world.dump_core true ∷ []) (err_exit_3 world 2 (b'x' ∷ []))
    × Reports true (ending world.dump_core true ∷ []) (err_exit_en world 5 (b'x' ∷ []))
    × Reports true (ending world.dump_core true ∷ []) (fatal world (b'x' ∷ []))
    × Reports false (ending world.dump_core false ∷ []) (err_exit world 2 (b'x' ∷ []))
exits_lem_test = exits_lem world 2 5 (b'x' ∷ [])

usage_err_test :
    usage_err (b'U' ∷ []) (b'x' ∷ [])
    ≡ flush_stdout
      ∷ put_stderr (b'U' ∷ [])
      ∷ put_stderr (b'x' ∷ [])
      ∷ flush_stderr
      ∷ exit_failure
      ∷ []
unfolding usage_err
usage_err_test = refl
