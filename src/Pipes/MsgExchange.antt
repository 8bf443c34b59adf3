-- ===== src/Pipes/MsgExchange.antt =====
-- linux-api-kerrisk/POSIX-mqueue/msg_exchange.c: two users, each with a parent that sends the lines of
-- its input and a child that prints what the other user sends. The parent of `a` with the arguments
-- "a b" sends to the queue from which the child of `b`, with the arguments "b a", receives; the model
-- follows that pair. The other pair uses the other queue.
use operating_systems_theory.Common.{
  ltb, ℕ, List, Option, [], drop, length, none, some, suc, take, ◌++◌, ◌+◌, ◌<◌, ◌∷◌, ◌≡◌, Bool,
  ◌==◌, if◌then◌else◌, false, true, ◌-◌,
}
use operating_systems_theory.Common.Text.{Text, cut_at}
pub mod Invariant
pub mod Delivery
mod Examples

-- `snprintf(name, 100, "/%s_to_%s", from, to)`
abbrev pub queue_name : (from to : Text) → Text
queue_name from to = take 99 (b'/' ∷ from ++ b'_' ∷ b't' ∷ b'o' ∷ b'_' ∷ to)

-- The queues that a program with the arguments `me` and `other` opens, `mqd1` and `mqd2`.
abbrev pub q1_name : (me other : Text) → Text
q1_name me other = queue_name me other

abbrev pub q2_name : (me other : Text) → Text
q2_name me other = queue_name other me

pub data Sender : Type 0 where
  s_read : Sender
  s_send : Sender
  s_stopped : Sender

pub data Receiver : Type 0 where
  c_receive : Receiver
  c_print : Receiver

-- The lines left in the parent's input, its buffer, the queue, the child's buffer, and what the child
-- has printed. A message is as long as the queue allows, whatever the line.
pub record Exchange : Type 0 where
  pub sender : Sender
  pub unread : List Text
  pub out_msg : Text
  pub queue : List Text
  pub receiver : Receiver
  pub in_msg : Text
  pub printed : List Text

abbrev pub started : (lines : List Text) (out_msg in_msg : Text) → Exchange
started lines out_msg in_msg = record {
  sender = s_read;
  unread = lines;
  out_msg = out_msg;
  queue = [];
  receiver = c_receive;
  in_msg = in_msg;
  printed = [];
}

-- `fgets` for a buffer of `size` bytes: at most `size - 1` bytes of the line, and a zero byte, over the
-- start of the buffer; and the lines that are left, the rest of a longer line first.
abbrev pub piece : (size : ℕ) (line : Text) → Text
piece size line = take (size - 1) line

unfoldable pub fgets : (size : ℕ) (line buf : Text) → Text
fgets size line buf = piece size line ++ 0 ∷ drop (length (piece size line) + 1) buf

unfoldable pub fgets_left : (size : ℕ) (line : Text) (more : List Text) → List Text
fgets_left size line more = if ltb (length line) size then more else drop (size - 1) line ∷ more

-- `mq_receive`: the message over the start of the buffer.
unfoldable pub mq_receive : (message buf : Text) → Text
mq_receive message buf = message ++ drop (length message) buf

-- A step of the parent or of the child, where a message is `size` bytes, `attr.mq_msgsize`. `mq_send`
-- waits while the queue holds `maxmsg` messages, and `mq_receive` while it is empty. At the end of its
-- input the parent stops with `errExit`.
pub data Move (size maxmsg : ℕ) (x : Exchange) : Exchange → Type 0 where
  read :
      (line : Text) (more : List Text)
      → x.sender ≡ s_read
      → x.unread ≡ line ∷ more
      → Move size maxmsg x (record x {
        sender = s_send;
        unread = fgets_left size line more;
        out_msg = fgets size line x.out_msg;
      })
  end_of_input :
      x.sender ≡ s_read → x.unread ≡ [] → Move size maxmsg x (record x { sender = s_stopped })
  send :
      x.sender ≡ s_send
      → length x.queue < maxmsg
      → Move size maxmsg x (record x { sender = s_read; queue = x.queue ++ x.out_msg ∷ [] })
  receive :
      (message : Text) (more : List Text)
      → x.receiver ≡ c_receive
      → x.queue ≡ message ∷ more
      → Move size maxmsg x
          (record x { receiver = c_print; queue = more; in_msg = mq_receive message x.in_msg })
  print :
      x.receiver ≡ c_print
      → Move size maxmsg x
          (record x { receiver = c_receive; printed = x.printed ++ cut_at 0 x.in_msg ∷ [] })

-- A run of so many steps.
pub data Run (size maxmsg : ℕ) (x₀ : Exchange) : ℕ → Exchange → Type 0 where
  begin : Run size maxmsg x₀ 0 x₀
  step :
      {k : ℕ} {x x' : Exchange}
      → Run size maxmsg x₀ k x
      → Move size maxmsg x x'
      → Run size maxmsg x₀ (suc k) x'

-- `ENOENT`
abbrev enoent : ℕ
enoent = 2

-- How `cleaner` ends: `exit(EXIT_SUCCESS)`, or `errExit` with the name of a queue.
pub data Ended : Type 0 where
  success : Ended
  error_in_q1 : Ended
  error_in_q2 : Ended

-- The test behind an `mq_unlink`, by what it sets `errno` to, if it fails.
abbrev pub is_bad : Option ℕ → Bool
is_bad none = false
is_bad (some errno) = if errno == enoent then false else true

unfoldable pub cleaner : (unlink_q1 unlink_q2 : Option ℕ) → Ended
cleaner unlink_q1 unlink_q2 =
    if is_bad unlink_q1 then error_in_q1 else if is_bad unlink_q2 then error_in_q2 else success
