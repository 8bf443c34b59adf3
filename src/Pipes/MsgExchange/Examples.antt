-- ===== src/Pipes/MsgExchange/Examples.antt =====
-- msg_exchange.c with one line and queues of one message.
use operating_systems_theory.Common.{
  List, [], ◌∷◌, ◌≡◌, refl, ◌++◌, length, ◌*◌, ◌+◌, ◌≤◌, none, some, arith,
}
use operating_systems_theory.Common.Text.{Text, lacks}
use operating_systems_theory.Pipes.MsgExchange.{
  fgets_left, Exchange, Move, Run, begin, cleaner, end_of_input, error_in_q1, error_in_q2, print,
  q1_name, q2_name, read, receive, send, started, step, success,
}
use operating_systems_theory.Pipes.MsgExchange.Invariant.{clean}
use operating_systems_theory.Pipes.MsgExchange.Delivery.{
  printed_in_order, all_printed, exchange_bound,
}

abbrev hi : List Text
hi = (b'h' ∷ b'i' ∷ b'\n' ∷ []) ∷ []

abbrev garbage : Text
garbage = 7 ∷ 7 ∷ 7 ∷ 7 ∷ 7 ∷ 7 ∷ []

whole_run : (x : Exchange) × Run 6 1 (started hi garbage garbage) 5 x
unfolding fgets_left
whole_run = (
  _,
  step
      (step
        (step
          (step (step begin (read (b'h' ∷ b'i' ∷ b'\n' ∷ []) [] refl refl))
            (send refl (omega arith)))
          (receive _ [] refl refl))
        (print refl))
      (end_of_input refl refl),
)

printed_in_order_test : (rest : List Text) × (whole_run.0.printed ++ rest ≡ hi)
unfolding whole_run fgets_left clean lacks
printed_in_order_test = printed_in_order 6 1 hi garbage garbage refl whole_run.1

exchange_bound_test : 5 ≤ 4 * length hi + 1
unfolding whole_run fgets_left clean lacks
exchange_bound_test = exchange_bound 6 1 hi garbage garbage refl whole_run.1

stuck_test : ¬ ((x' : Exchange) × Move 6 1 whole_run.0 x')
unfolding whole_run fgets_left
stuck_test (_, read line more e u) = cc (e)
stuck_test (_, end_of_input e u) = cc (e)
stuck_test (_, send e room) = cc (e)
stuck_test (_, receive message more e q) = cc (q)
stuck_test (_, print e) = cc (e)

all_printed_example : (whole_run.0.printed ≡ hi) × (5 ≡ 4 * length hi + 1)
unfolding whole_run fgets_left clean lacks
all_printed_example = all_printed 6 1 hi garbage garbage refl (omega arith) whole_run.1 stuck_test

-- The users "x" and "x_to_x" send to one queue, so each child also gets what its own parent sends.
one_queue_test :
    q1_name (b'x' ∷ []) (b'x' ∷ b'_' ∷ b't' ∷ b'o' ∷ b'_' ∷ b'x' ∷ [])
    ≡ q2_name (b'x' ∷ []) (b'x' ∷ b'_' ∷ b't' ∷ b'o' ∷ b'_' ∷ b'x' ∷ [])
one_queue_test = refl

cleaner_test :
    (cleaner none (some 2) ≡ success)
    × (cleaner (some 13) none ≡ error_in_q1)
    × (cleaner (some 2) (some 13) ≡ error_in_q2)
unfolding cleaner
cleaner_test = (refl, refl, refl)
