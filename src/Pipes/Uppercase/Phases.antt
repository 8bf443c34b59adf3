-- ===== src/Pipes/Uppercase/Phases.antt =====
-- to_uppercase.c: the places that the parent and the child can be in together.
use operating_systems_theory.Common.{ℕ, List, [], ◌++◌, ◌∷◌, ◌≡◌, map}
use operating_systems_theory.Common.Text.{Text, cut_at}
use operating_systems_theory.Pipes.Uppercase.{to_upper}
use operating_systems_theory.Pipes.Uppercase.Conversation.{
  Talk, c_read, c_write, p_print, p_read, p_receive, p_send,
}

-- The result for a chunk of the input: `printf` with "%s" stops at a zero byte.
unfoldable pub result : Text → Text
result chunk = cut_at 0 (map to_upper chunk)

unfoldable pub results : List Text → List Text
results [] = []
results (chunk ∷ chunks) = result chunk ∷ results chunks

-- Where the program stands, with the result that is not printed yet.
pub data Phase : Talk → (now : List Text) → Type 0 where
  idle :
      {unread printed : List Text} {buf child_buf : Text}
      → Phase
          (record {
            parent = p_read;
            unread = unread;
            buf = buf;
            there = [];
            child = c_read;
            child_buf = child_buf;
            back = [];
            printed = printed;
          })
          []
  sending :
      {unread printed : List Text} {child_buf : Text} (b : ℕ) (chunk : Text)
      → Phase
          (record {
            parent = p_send;
            unread = unread;
            buf = b ∷ chunk;
            there = [];
            child = c_read;
            child_buf = child_buf;
            back = [];
            printed = printed;
          })
          (result (b ∷ chunk) ∷ [])
  sent :
      {unread printed : List Text} {buf child_buf : Text} (b : ℕ) (chunk : Text)
      → Phase
          (record {
            parent = p_receive;
            unread = unread;
            buf = buf;
            there = b ∷ chunk;
            child = c_read;
            child_buf = child_buf;
            back = [];
            printed = printed;
          })
          (result (b ∷ chunk) ∷ [])
  working :
      {unread printed : List Text} {buf child_buf : Text} (b : ℕ) (chunk : Text)
      → child_buf ≡ map to_upper (b ∷ chunk)
      → Phase
          (record {
            parent = p_receive;
            unread = unread;
            buf = buf;
            there = [];
            child = c_write;
            child_buf = child_buf;
            back = [];
            printed = printed;
          })
          (result (b ∷ chunk) ∷ [])
  answered :
      {unread printed : List Text} {buf child_buf back : Text} (b : ℕ) (chunk : Text)
      → back ≡ map to_upper (b ∷ chunk)
      → Phase
          (record {
            parent = p_receive;
            unread = unread;
            buf = buf;
            there = [];
            child = c_read;
            child_buf = child_buf;
            back = back;
            printed = printed;
          })
          (result (b ∷ chunk) ∷ [])
  printing :
      {unread printed : List Text} {child_buf : Text} (b : ℕ) (chunk : Text)
      → Phase
          (record {
            parent = p_print;
            unread = unread;
            buf = b ∷ chunk;
            there = [];
            child = c_read;
            child_buf = child_buf;
            back = [];
            printed = printed;
          })
          (cut_at 0 (b ∷ chunk) ∷ [])
  ending :
      {unread printed : List Text} {child_buf : Text}
      → unread ≡ []
      → Phase
          (record {
            parent = p_send;
            unread = unread;
            buf = [];
            there = [];
            child = c_read;
            child_buf = child_buf;
            back = [];
            printed = printed;
          })
          []
  hung :
      {unread printed : List Text} {buf child_buf : Text}
      → unread ≡ []
      → Phase
          (record {
            parent = p_receive;
            unread = unread;
            buf = buf;
            there = [];
            child = c_read;
            child_buf = child_buf;
            back = [];
            printed = printed;
          })
          []

pub record Inv (chunks : List Text) (x : Talk) : Type 0 where
  pub now : List Text
  pub phase : Phase x now
  pub account : x.printed ++ (now ++ results x.unread) ≡ results chunks
