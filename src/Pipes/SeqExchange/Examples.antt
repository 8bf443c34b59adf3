-- ===== src/Pipes/SeqExchange/Examples.antt =====
-- The client and the server of sequence numbers, where the client is quick and where it is not.
use operating_systems_theory.Common.{refl}
use operating_systems_theory.Common.Int.{pos, to_int, ◌+ℤ◌}
use operating_systems_theory.Pipes.SeqExchange.{
  Talk, Move, Reach, accept, begin, connect, mkfifo, open_fifo, opened, other, read, refuse,
  respond, save, send, served, step,
}
use operating_systems_theory.Pipes.SeqExchange.Progress.{client_not_stuck}

-- The request is sent, and another client is served in front of it.
sent : (x : Talk) × Reach (pos 3) (pos 5) x
sent = (_, other (step (step begin (mkfifo refl)) (send refl)) (served (pos 2) refl))

client_not_stuck_example : (x' : Talk) × Move (pos 3) sent.0 x'
unfolding sent
client_not_stuck_example = client_not_stuck sent.1 refl refl

answered : (x : Talk) × Reach (pos 3) (pos 5) x
unfolding sent to_int ◌+ℤ◌
answered = (
  _,
  step
      (step
        (step
          (step (step (step (step sent.1 (open_fifo refl)) (accept refl refl)) (connect refl refl))
            (opened refl refl))
          (respond refl))
        (save refl))
      (read (pos 7) refl refl),
)

-- The server is quicker: it tries the client's FIFO before the client opens it, and the client waits in
-- its `open` for ever.
too_late : (x : Talk) × Reach (pos 3) (pos 5) x
unfolding sent
too_late = (_, step (step (step sent.1 (accept refl refl)) (refuse refl refl)) (open_fifo refl))

too_late_test : ¬ ((x' : Talk) × Move (pos 3) too_late.0 x')
unfolding too_late sent
too_late_test (_, mkfifo e) = cc (e)
too_late_test (_, send e) = cc (e)
too_late_test (_, open_fifo e) = cc (e)
too_late_test (_, opened e c) = cc (c)
too_late_test (_, read n e r) = cc (e)
too_late_test (_, accept e q) = cc (q)
too_late_test (_, connect e r) = cc (e)
too_late_test (_, refuse e r) = cc (e)
too_late_test (_, respond e) = cc (e)
too_late_test (_, save e) = cc (e)
