-- ===== src/Pipes/Transfer/Examples.antt =====
-- us-xfr with three bytes, of which the client reads two at first.
use operating_systems_theory.Common.{[], length, ◌++◌, ◌+◌, ◌<◌, ◌*◌, ◌∷◌, ◌≡◌, arith, refl, inl}
use operating_systems_theory.Common.Text.{Text}
use operating_systems_theory.Pipes.Transfer.{
  Link, Move, Run, begin, deliver, end_of_input, hang_up, read, receive, step, write,
}
use operating_systems_theory.Pipes.Transfer.Delivery.{
  written_in_order, written_whole, connection_ends,
}

abbrev abc : Text
abc = b'a' ∷ b'b' ∷ b'c' ∷ []

first_part : (x : Link) × Run abc 3 x
first_part = (
  _,
  step
      (step (step begin (read (b'a' ∷ b'b' ∷ []) (b'c' ∷ []) refl refl (omega arith) (omega arith)))
        (write refl))
      (receive (b'a' ∷ []) (b'b' ∷ []) refl refl (omega arith) (omega arith)),
)

whole_run : (x : Link) × Run abc 10 x
unfolding first_part
whole_run = (
  _,
  step
      (step
        (step
          (step
            (step
              (step (step first_part.1 (read (b'c' ∷ []) [] refl refl (omega arith) (omega arith)))
                (deliver refl))
              (write refl))
            (receive (b'b' ∷ b'c' ∷ []) [] refl refl (omega arith) (omega arith)))
          (deliver refl))
        (end_of_input refl refl))
      (hang_up refl refl (inl refl)),
)

written_whole_example : whole_run.0.output ≡ abc
unfolding whole_run first_part
written_whole_example = written_whole whole_run.1 refl refl

written_in_order_test : (rest : Text) × (whole_run.0.output ++ rest ≡ abc)
written_in_order_test = written_in_order whole_run.1

connection_ends_example : ((x' : Link) × Move first_part.0 x') × (3 < 4 * length abc + 2)
unfolding first_part
connection_ends_example = connection_ends first_part.1 refl
