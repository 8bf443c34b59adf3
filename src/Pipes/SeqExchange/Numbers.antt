-- ===== src/Pipes/SeqExchange/Numbers.antt =====
-- fifo_seqnum_client.c and fifo_seqnum_server.c: the number that the client gets, where no sum leaves
-- the range of `int` and no length is negative.
use operating_systems_theory.Common.{arith, some, ◌≡◌}
use operating_systems_theory.Common.Int.{ℤ, InInt, pos, ◌+ℤ◌, ◌≤ℤ◌}
use operating_systems_theory.Pipes.SeqExchange.{
  Talk, Move, Other, Reach, Server, accept, begin, connect, mkfifo, open_fifo, opened, other, read,
  refuse, respond, save, send, served, step, v_save,
}

-- The next number, once the round of the server that is under way is over.
abbrev pub next_num : (seq_len : ℤ) (server : Server) (seq_num : ℤ) → ℤ
next_num seq_len v_save seq_num = seq_num +ℤ seq_len
next_num seq_len _ seq_num = seq_num

-- What a step adds to the number keeps it within `int`; and another client asks for at least 0.
unfoldable pub MoveFits : {seq_len : ℤ} {x x' : Talk} → Move seq_len x x' → Type 0
MoveFits {seq_len} {x} (save e) = InInt (x.seq_num +ℤ seq_len)
MoveFits (mkfifo e) = Unit
MoveFits (send e) = Unit
MoveFits (open_fifo e) = Unit
MoveFits (opened e c) = Unit
MoveFits (read n e r) = Unit
MoveFits (accept e r) = Unit
MoveFits (connect e r) = Unit
MoveFits (refuse e r) = Unit
MoveFits (respond e) = Unit

unfoldable pub OtherFits : {x x' : Talk} → Other x x' → Type 0
OtherFits {x} (served len e) = (pos 0 ≤ℤ len) × InInt (x.seq_num +ℤ len)

unfoldable pub Fits : {seq_len start : ℤ} {x : Talk} → Reach seq_len start x → Type 0
Fits begin = Unit
Fits (step r m) = Fits r × MoveFits m
Fits (other r o) = Fits r × OtherFits o

-- A number that is in the client's FIFO, or printed.
pub record Reserved (seq_len start : ℤ) (x : Talk) : Type 0 where
  pub in_fifo :
      (n : ℤ)
      → x.response ≡ some n
      → (start ≤ℤ n) × (n +ℤ seq_len ≤ℤ next_num seq_len x.server x.seq_num)
  pub on_paper :
      (n : ℤ)
      → x.printed ≡ some n
      → (start ≤ℤ n) × (n +ℤ seq_len ≤ℤ next_num seq_len x.server x.seq_num)
  pub onward : start ≤ℤ x.seq_num

≤ℤ_trans : (a b c : ℤ) → a ≤ℤ b → b ≤ℤ c → a ≤ℤ c
≤ℤ_trans a b c h k = omega arith

-- Where the number has grown, what was reserved still is.
grown :
    (start seq_len a b n : ℤ)
    → a ≤ℤ b
    → (start ≤ℤ n) × (n +ℤ seq_len ≤ℤ a)
    → (start ≤ℤ n) × (n +ℤ seq_len ≤ℤ b)
grown start seq_len a b n h (first, last) = (first, ≤ℤ_trans (n +ℤ seq_len) a b last h)
