-- ===== src/Pipes/Uppercase/Examples.antt =====
-- to_uppercase.c on two chunks.
use operating_systems_theory.Common.{[], map, refl, ◌∷◌, ◌≡◌, List, ◌++◌}
use operating_systems_theory.Common.Text.{Text}
use mathlib.Core.List.{flatten}
use operating_systems_theory.Pipes.Uppercase.{
  child, child-map, to_upper, upper, upper_loop, upper_step,
}
use operating_systems_theory.Pipes.Uppercase.Conversation.{
  Talk, Move, Reach, begin, child_read, child_write, end_of_input, p_receive, print, read, receive,
  send, step,
}
use operating_systems_theory.Pipes.Uppercase.Phases.{results}
use operating_systems_theory.Pipes.Uppercase.Turns.{printed-results}
use operating_systems_theory.Pipes.Uppercase.Results.{all_results}

child-map_test :
    child ((b'a' ∷ b'Z' ∷ []) ∷ (b'b' ∷ []) ∷ [])
    ≡ map to_upper (flatten ((b'a' ∷ b'Z' ∷ []) ∷ (b'b' ∷ []) ∷ []))
child-map_test = child-map ((b'a' ∷ b'Z' ∷ []) ∷ (b'b' ∷ []) ∷ [])

child_test : child ((b'a' ∷ b'1' ∷ []) ∷ (b'b' ∷ []) ∷ []) ≡ b'A' ∷ b'1' ∷ b'B' ∷ []
unfolding child upper upper_loop upper_step
child_test = refl

abbrev one_line : List Text
one_line = (b'a' ∷ b'\n' ∷ []) ∷ []

whole_run : (x : Talk) × Reach one_line x
unfolding upper upper_loop upper_step
whole_run = (
  _,
  step
      (step
        (step
          (step
            (step
              (step (step (step begin (read b'a' (b'\n' ∷ []) [] refl refl)) (send refl))
                (child_read b'a' (b'\n' ∷ []) refl refl))
              (child_write refl))
            (receive b'A' (b'\n' ∷ []) refl refl))
          (print refl))
        (end_of_input refl refl))
      (send refl),
)

printed-results_test : (rest : List Text) × (whole_run.0.printed ++ rest ≡ results one_line)
printed-results_test = printed-results one_line whole_run.1

hangs_test : ¬ ((x' : Talk) × Move whole_run.0 x')
unfolding whole_run
hangs_test (_, read b chunk more e u) = cc (e)
hangs_test (_, end_of_input e u) = cc (e)
hangs_test (_, send e) = cc (e)
hangs_test (_, child_read b rest e q) = cc (q)
hangs_test (_, child_write e) = cc (e)
hangs_test (_, receive b rest e q) = cc (q)
hangs_test (_, print e) = cc (e)

all_results_example : (whole_run.0.printed ≡ results one_line) × (whole_run.0.parent ≡ p_receive)
all_results_example = all_results one_line refl whole_run.1 hangs_test
