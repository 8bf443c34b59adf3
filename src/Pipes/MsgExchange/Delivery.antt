-- ===== src/Pipes/MsgExchange/Delivery.antt =====
-- msg_exchange.c: what is printed is what was read.
use operating_systems_theory.Common.{
  ℕ, List, [], length, ◌++◌, ◌+◌, ◌<◌, ◌≤◌, ◌*◌, ◌∷◌, ◌≡◌, true, arith, refl, ◌⊎◌, List-cases, inl,
  inr, ◌∙◌, sym, length-append, append-nil,
}
use operating_systems_theory.Common.Text.{Text}
use operating_systems_theory.Pipes.MsgExchange.{
  fgets_left, Exchange, Move, Receiver, Run, Sender, begin, c_print, c_receive, end_of_input, print,
  read, receive, s_read, s_send, s_stopped, send, started, step,
}
use operating_systems_theory.Pipes.MsgExchange.Invariant.{
  clean, clean-head, Inv, Run-Inv, on_the_way, texts, to_print, to_send,
}

abbrev sender_work : Sender → ℕ
sender_work s_read = 1
sender_work s_send = 4
sender_work s_stopped = 0

abbrev receiver_work : Receiver → ℕ
receiver_work c_receive = 0
receiver_work c_print = 1

Receiver-cases : (r : Receiver) → (r ≡ c_receive) ⊎ (r ≡ c_print)
Receiver-cases c_receive = inl refl
Receiver-cases c_print = inr refl

Sender-cases : (s : Sender) → ((s ≡ s_read) ⊎ (s ≡ s_send)) ⊎ (s ≡ s_stopped)
Sender-cases s_read = inl (inl refl)
Sender-cases s_send = inl (inr refl)
Sender-cases s_stopped = inr refl

module _ (size maxmsg : ℕ) (lines : List Text) where
  -- What the child prints is at every moment a first part of the lines that the parent reads, however
  -- the two interleave and whatever the buffers held at first, where no line has a zero byte and each
  -- is, with its newline, shorter than a message.
  pub printed_in_order :
      (out_msg in_msg : Text) {k : ℕ} {x : Exchange}
      → clean size lines ≡ true
      → Run size maxmsg (started lines out_msg in_msg) k x
      → (rest : List Text) × (x.printed ++ rest ≡ lines)
  printed_in_order out_msg in_msg {x = x} ok r =
      (on_the_way x, (Run-Inv size maxmsg lines out_msg in_msg ok r).account)

  -- Each line takes four steps.
  work : Exchange → ℕ
  work x =
      4 * length x.unread + sender_work x.sender + 2 * length x.queue + receiver_work x.receiver

  Move-work : {x x' : Exchange} → Move size maxmsg x x' → Inv size lines x → 1 + work x' ≡ work x
  unfolding fgets_left work
  Move-work (read line more e u) i =
      let (no_zero, short, rest) = clean-head size line more (rw u at i.unread_clean) in
      rw (e, u, short) (omega arith)
  Move-work (end_of_input e u) i = rw e (omega arith)
  Move-work {x} (send e room) i = rw e (omega (arith, length-append x.queue (x.out_msg ∷ [])))
  Move-work (receive message more e q) i = rw (e, q) (omega arith)
  Move-work (print e) i = rw e (omega arith)

  Run-work :
      (out_msg in_msg : Text) {k : ℕ} {x : Exchange}
      → clean size lines ≡ true
      → Run size maxmsg (started lines out_msg in_msg) k x
      → k + work x ≡ 4 * length lines + 1
  unfolding work
  Run-work out_msg in_msg ok begin = omega arith
  Run-work out_msg in_msg ok (step r m) =
      let i = Run-Inv size maxmsg lines out_msg in_msg ok r in
      omega (arith, Run-work out_msg in_msg ok r, Move-work m i)

  -- Where nothing can move, everything has been read and passed on.
  stuck-empty :
      {x : Exchange}
      → Inv size lines x
      → 0 < maxmsg
      → ¬ ((x' : Exchange) × Move size maxmsg x x')
      → (on_the_way x ≡ []) × (work x ≡ 0)
  unfolding on_the_way to_print texts to_send work
  stuck-empty {x} i room stuck = elim (Receiver-cases x.receiver) [
    | inr p ↦ absurd (stuck (_, print p))
    | inl c ↦ elim (List-cases x.queue) [
      | inr (message, more, q) ↦ absurd (stuck (_, receive message more c q))
      | inl none_queued ↦ elim (Sender-cases x.sender) [
        | inl (inl e) ↦ elim (List-cases x.unread) [
          | inl u ↦ absurd (stuck (_, end_of_input e u))
          | inr (line, more, u) ↦ absurd (stuck (_, read line more e u))
        ]
        | inl (inr e) ↦ absurd (stuck (_, send e (rw none_queued room)))
        | inr e ↦
            let u : x.unread ≡ [] = i.at_end (rw e refl) in
            (rw (c, none_queued, e, u) refl, rw (c, none_queued, e, u) (omega arith))
      ]
    ]
  ]

  -- If the queue has room for a message, and each line has no zero byte and, with its newline, is
  -- shorter than a message (`clean`), a run in which no step is left has printed every line, each
  -- once and in order, and has taken four steps for each line and one for the end of the input.
  pub all_printed :
      (out_msg in_msg : Text) {k : ℕ} {x : Exchange}
      → clean size lines ≡ true
      → 0 < maxmsg
      → Run size maxmsg (started lines out_msg in_msg) k x
      → ¬ ((x' : Exchange) × Move size maxmsg x x')
      → (x.printed ≡ lines) × (k ≡ 4 * length lines + 1)
  all_printed out_msg in_msg {k} {x} ok room r stuck =
      let i = Run-Inv size maxmsg lines out_msg in_msg ok r in
      let (nothing, no_work) = stuck-empty i room stuck in
      (
        sym (append-nil x.printed) ∙ rw nothing at i.account,
        omega (arith, Run-work out_msg in_msg ok r, no_work),
      )

  -- For such lines, no run is longer than that.
  pub exchange_bound :
      (out_msg in_msg : Text) {k : ℕ} {x : Exchange}
      → clean size lines ≡ true
      → Run size maxmsg (started lines out_msg in_msg) k x
      → k ≤ 4 * length lines + 1
  exchange_bound out_msg in_msg ok r = omega (arith, Run-work out_msg in_msg ok r)
