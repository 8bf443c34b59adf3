-- ===== src/Processes/RtSched/Examples.antt =====
-- rtshed.c with the policy "f" and priority 5, under limits from 1 to 99.
use operating_systems_theory.Common.{List, [], false, refl, true, ◌∷◌, ◌≡◌, Bool}
use operating_systems_theory.Common.Int.{pos}
use operating_systems_theory.Common.Text.{Text, text_eq}
use operating_systems_theory.Processes.RtSched.{
  main, Atoi, Call, IsWithin, executed, fifo, main-executed, name_of, out_of_range,
}

abbrev five : Text → Atoi
five s = record { value = pos 5; errno_set = false }

abbrev args : List Text
args = (b'f' ∷ []) ∷ (b'5' ∷ []) ∷ (b'l' ∷ b's' ∷ []) ∷ []

abbrev all_good : Call → Bool
all_good call = true

args_run :
    main five (λ p. 1) (λ p. 99) all_good args ≡ executed fifo (pos 5) ((b'l' ∷ b's' ∷ []) ∷ [])
unfolding main text_eq
args_run = refl

main-executed_example :
    (number : Text) × (args ≡ name_of fifo ∷ number ∷ (b'l' ∷ b's' ∷ []) ∷ [])
    × ((five number).value ≡ pos 5)
    × IsWithin (λ p. 1) (λ p. 99) fifo (pos 5)
    × ((call : Call) → all_good call ≡ true)
main-executed_example =
    main-executed five (λ p. 1) (λ p. 99) all_good args fifo (pos 5) ((b'l' ∷ b's' ∷ []) ∷ [])
      args_run

-- A word that is no number is 0 for `atoi`, which sets no error: it is out of range.
word_test :
    main (λ s. record { value = pos 0; errno_set = false }) (λ p. 1) (λ p. 99) all_good args
    ≡ out_of_range
unfolding main text_eq
word_test = refl
