-- ===== src/Pipes/MsgExchange/Invariant.antt =====
-- msg_exchange.c: where the lines of the input are in every state.
use operating_systems_theory.Common.{
  ltb, take_all, ◌-◌, List, [], ◌++◌, ◌∷◌, ◌≡◌, Bool, true, ◌&&◌, not, Bool-cases, ap, append_assoc,
  drop, false, inl, inr, length, refl, ℕ, ◌+◌, ◌∙◌, arith,
}
use operating_systems_theory.Common.Text.{
  Text, cut_at, lacks, cut_at-append, cut_at-first, lacks-append,
}
use operating_systems_theory.Pipes.MsgExchange.{
  Exchange, Receiver, Sender, c_print, c_receive, s_send, s_stopped, Move, Run, begin, end_of_input,
  fgets, mq_receive, print, read, receive, send, started, step, fgets_left, piece,
}

-- The text of each message.
unfoldable pub texts : List Text → List Text
texts [] = []
texts (message ∷ queue) = cut_at 0 message ∷ texts queue

-- Each message has a zero byte.
unfoldable pub ended : List Text → Bool
ended [] = true
ended (message ∷ queue) = not (lacks 0 message) && ended queue

-- The lines have no zero byte and are shorter than a message.
abbrev pub is_clean : (size : ℕ) → Text → Bool
is_clean size line = lacks 0 line && ltb (length line) size

unfoldable pub clean : (size : ℕ) → List Text → Bool
clean size [] = true
clean size (line ∷ lines) = is_clean size line && clean size lines

-- What the parent has read and not sent, and what the child has received and not printed.
unfoldable pub to_send : Sender → Text → List Text
to_send s_send out_msg = cut_at 0 out_msg ∷ []
to_send _ out_msg = []

unfoldable pub to_print : Receiver → Text → List Text
to_print c_print in_msg = cut_at 0 in_msg ∷ []
to_print c_receive in_msg = []

unfoldable pub may_send : Sender → Text → Bool
may_send s_send out_msg = not (lacks 0 out_msg)
may_send _ out_msg = true

abbrev pub is_stopped : Sender → Bool
is_stopped s_stopped = true
is_stopped _ = false

-- Where the lines of the input are.
unfoldable pub on_the_way : Exchange → List Text
on_the_way x =
    to_print x.receiver x.in_msg ++ (texts x.queue ++ (to_send x.sender x.out_msg ++ x.unread))

pub record Inv (size : ℕ) (lines : List Text) (x : Exchange) : Type 0 where
  pub account : x.printed ++ on_the_way x ≡ lines
  pub queue_ended : ended x.queue ≡ true
  pub buffer_ended : may_send x.sender x.out_msg ≡ true
  pub unread_clean : clean size x.unread ≡ true
  pub at_end : is_stopped x.sender ≡ true → x.unread ≡ []

not-true : (b : Bool) → not b ≡ true → b ≡ false
not-true true h = absurd (cc (h))
not-true false h = refl

texts-snoc :
    (queue : List Text) (m : Text) → texts (queue ++ m ∷ []) ≡ texts queue ++ cut_at 0 m ∷ []
unfolding texts
texts-snoc [] m = refl
texts-snoc (a ∷ queue) m = ap (λ l. cut_at 0 a ∷ l) (texts-snoc queue m)

ended-snoc :
    (queue : List Text) (m : Text)
    → ended queue ≡ true
    → lacks 0 m ≡ false
    → ended (queue ++ m ∷ []) ≡ true
unfolding ended
ended-snoc [] m h e = rw e refl
ended-snoc (a ∷ queue) m h e = elim (Bool-cases (lacks 0 a)) [
  | inl f ↦ absurd (cc (rw f at h))
  | inr f ↦ rw f (ended-snoc queue m (rw f at h) e)
]

ended-head :
    (m : Text) (queue : List Text)
    → ended (m ∷ queue) ≡ true
    → (lacks 0 m ≡ false) × (ended queue ≡ true)
unfolding ended
ended-head m queue h = elim (Bool-cases (lacks 0 m)) [
  | inl f ↦ absurd (cc (rw f at h))
  | inr f ↦ (f, rw f at h)
]

pub clean-head :
    (size : ℕ) (l : Text) (lines : List Text)
    → clean size (l ∷ lines) ≡ true
    → (lacks 0 l ≡ true) × (ltb (length l) size ≡ true) × (clean size lines ≡ true)
unfolding clean
clean-head size l lines h = elim (Bool-cases (lacks 0 l)) [
  | inr f ↦ absurd (cc (rw f at h))
  | inl f ↦ elim (Bool-cases (ltb (length l) size)) [
    | inl g ↦ (f, g, rw (f, g) at h)
    | inr g ↦ absurd (cc (rw (f, g) at h))
  ]
]

-- A line that is shorter than a message is read whole.
piece-short : (size : ℕ) (line : Text) → ltb (length line) size ≡ true → piece size line ≡ line
piece-short size line h = take_all (size - 1) line (ground arith)

cut_at-fgets :
    (size : ℕ) (line buf : Text)
    → lacks 0 line ≡ true
    → ltb (length line) size ≡ true
    → cut_at 0 (fgets size line buf) ≡ line
unfolding fgets
cut_at-fgets size line buf h short =
    rw (piece-short size line short) (cut_at-append 0 line (drop (length line + 1) buf) h)

lacks-fgets : (size : ℕ) (line buf : Text) → lacks 0 (fgets size line buf) ≡ false
unfolding fgets
lacks-fgets size line buf =
    lacks-append 0 (piece size line) (drop (length (piece size line) + 1) buf)

cut_at-received : (m buf : Text) → lacks 0 m ≡ false → cut_at 0 (mq_receive m buf) ≡ cut_at 0 m
unfolding mq_receive
cut_at-received m buf h = cut_at-first 0 m (drop (length m) buf) h

module _ (size maxmsg : ℕ) (lines : List Text) where
  Move-Inv : {x x' : Exchange} → Move size maxmsg x x' → Inv size lines x → Inv size lines x'
  unfolding fgets_left on_the_way to_print to_send may_send texts
  Move-Inv {x} (read line more e u) i =
      let (no_zero, short, rest) = clean-head size line more (rw u at i.unread_clean) in
      record {
        account =
            rw (cut_at-fgets size line x.out_msg no_zero short, short) (rw (e, u) at i.account);
        queue_ended = i.queue_ended;
        buffer_ended = rw (lacks-fgets size line x.out_msg) refl;
        unread_clean = rw short rest;
        at_end = λ stopped. absurd (cc (stopped));
      }
  Move-Inv {x} (end_of_input e u) i = record {
    account = rw e at i.account;
    queue_ended = i.queue_ended;
    buffer_ended = refl;
    unread_clean = i.unread_clean;
    at_end = λ stopped. u;
  }
  Move-Inv {x} (send e room) i =
      let last : lacks 0 x.out_msg ≡ false =
        not-true (lacks 0 x.out_msg) (rw e at i.buffer_ended) in
      record {
        account =
            rw
              (
                texts-snoc x.queue x.out_msg,
                append_assoc (texts x.queue) (cut_at 0 x.out_msg ∷ []) x.unread,
              )
              (rw e at i.account);
        queue_ended = ended-snoc x.queue x.out_msg i.queue_ended last;
        buffer_ended = refl;
        unread_clean = i.unread_clean;
        at_end = λ stopped. absurd (cc (stopped));
      }
  Move-Inv {x} (receive message more e q) i =
      let (has, rest) = ended-head message more (rw q at i.queue_ended) in
      record {
        account = rw (cut_at-received message x.in_msg has) (rw (e, q) at i.account);
        queue_ended = rest;
        buffer_ended = i.buffer_ended;
        unread_clean = i.unread_clean;
        at_end = i.at_end;
      }
  Move-Inv {x} (print e) i = record {
    account =
        append_assoc x.printed (cut_at 0 x.in_msg ∷ [])
          (texts x.queue ++ (to_send x.sender x.out_msg ++ x.unread))
        ∙ (rw e at i.account);
    queue_ended = i.queue_ended;
    buffer_ended = i.buffer_ended;
    unread_clean = i.unread_clean;
    at_end = i.at_end;
  }

  pub Run-Inv :
      (out_msg in_msg : Text) {k : ℕ} {x : Exchange}
      → clean size lines ≡ true
      → Run size maxmsg (started lines out_msg in_msg) k x
      → Inv size lines x
  unfolding on_the_way to_print to_send may_send texts ended
  Run-Inv out_msg in_msg ok begin = record {
    account = refl;
    queue_ended = refl;
    buffer_ended = refl;
    unread_clean = ok;
    at_end = λ stopped. absurd (cc (stopped));
  }
  Run-Inv out_msg in_msg ok (step r m) = Move-Inv m (Run-Inv out_msg in_msg ok r)
