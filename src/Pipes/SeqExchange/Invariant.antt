-- ===== src/Pipes/SeqExchange/Invariant.antt =====
-- fifo_seqnum_client.c and fifo_seqnum_server.c: what holds in every state.
use operating_systems_theory.Common.{
  Bool, Option, arith, false, none, not, some, true, ◌&&◌, ◌||◌, ◌≡◌,
}
use operating_systems_theory.Common.Int.{ℤ}
use operating_systems_theory.Pipes.SeqExchange.{
  Talk, Client, Move, Other, Server, c_done, c_mkfifo, c_read, c_send, connect, has_reader, mkfifo,
  open_fifo, opened, read, refuse, respond, save, send, served, v_open, v_read, v_save, v_write,
  accept, Reach, begin, other, step,
}

abbrev pub has_sent : Client → Bool
has_sent c_mkfifo = false
has_sent c_send = false
has_sent _ = true

abbrev pub past_open : Client → Bool
past_open c_read = true
past_open c_done = true
past_open _ = false

abbrev pub is_done : Client → Bool
is_done c_done = true
is_done _ = false

abbrev pub at_open : Server → Bool
at_open v_open = true
at_open _ = false

abbrev pub at_write : Server → Bool
at_write v_write = true
at_write _ = false

abbrev pub at_save : Server → Bool
at_save v_save = true
at_save _ = false

abbrev pub at_read : Server → Bool
at_read v_read = true
at_read _ = false

abbrev pub is_some : Option ℤ → Bool
is_some none = false
is_some (some n) = true

pub record Inv (x : Talk) : Type 0 where
  pub somewhere : has_sent x.client ≡ (x.request || at_open x.server || x.refused || x.connected)
  pub in_fifo : x.request && (at_open x.server || x.refused || x.connected) ≡ false
  pub in_round : at_open x.server && (x.refused || x.connected) ≡ false
  pub answered : x.refused && x.connected ≡ false
  pub reader : x.connected ≡ true → has_reader x.client ≡ true
  pub writer : past_open x.client ≡ true → x.connected ≡ true
  pub writing : (at_write x.server || at_save x.server) ≡ true → x.connected ≡ true
  pub empty : (at_write x.server || not x.connected) ≡ true → is_some x.response ≡ false
  pub pending : (x.connected && not (at_write x.server)) ≡ (is_some x.response || is_done x.client)
  pub finished : is_some x.printed ≡ is_done x.client
  pub not_both : is_some x.response && is_done x.client ≡ false

Move-Inv : {seq_len : ℤ} {x x' : Talk} → Move seq_len x x' → Inv x → Inv x'
Move-Inv (mkfifo e) i = ground arith
Move-Inv (send e) i = ground arith
Move-Inv (open_fifo e) i = ground arith
Move-Inv (opened e c) i = ground arith
Move-Inv (read n e r) i = ground arith
Move-Inv (accept e r) i = ground arith
Move-Inv (connect e r) i = ground arith
Move-Inv (refuse e r) i = ground arith
Move-Inv (respond e) i = ground arith
Move-Inv (save e) i = ground arith

Other-Inv : {x x' : Talk} → Other x x' → Inv x → Inv x'
Other-Inv (served len e) i = ground arith

pub Reach-Inv : {seq_len start : ℤ} {x : Talk} → Reach seq_len start x → Inv x
Reach-Inv begin = ground arith
Reach-Inv (step r m) = Move-Inv m (Reach-Inv r)
Reach-Inv (other r o) = Other-Inv o (Reach-Inv r)

-- If the server has given up on the client's FIFO, the client never prints a number.
pub refused-silent :
    {seq_len start : ℤ} {x : Talk}
    → Reach seq_len start x
    → x.refused ≡ true
    → is_some x.printed ≡ false
refused-silent r e = let i = Reach-Inv r in ground (arith, i.answered, i.finished, i.writer)
