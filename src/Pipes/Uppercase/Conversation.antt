-- ===== src/Pipes/Uppercase/Conversation.antt =====
-- to_uppercase.c: the parent and the child over both pipes. A pipe holds a whole buffer, so a write
-- takes all of its bytes and a read gives all that the pipe holds.
use operating_systems_theory.Common.{ℕ, List, [], ◌++◌, ◌∷◌, ◌≡◌, length}
use operating_systems_theory.Common.Text.{Text, cut_at}
use operating_systems_theory.Pipes.Uppercase.{upper}

pub data Parent : Type 0 where
  p_read : Parent
  p_send : Parent
  p_receive : Parent
  p_print : Parent

pub data Child : Type 0 where
  c_read : Child
  c_write : Child

-- The reads of the standard input that are left, the bytes in both pipes and both buffers, and the
-- results that are printed.
pub record Talk : Type 0 where
  pub parent : Parent
  pub unread : List Text
  pub buf : Text
  pub there : Text
  pub child : Child
  pub child_buf : Text
  pub back : Text
  pub printed : List Text

abbrev pub started : (chunks : List Text) → Talk
started chunks = record {
  parent = p_read;
  unread = chunks;
  buf = [];
  there = [];
  child = c_read;
  child_buf = [];
  back = [];
  printed = [];
}

-- A read of an empty pipe waits. At the end of the input the parent goes on with no bytes.
pub data Move (x : Talk) : Talk → Type 0 where
  read :
      (b : ℕ) (chunk : Text) (more : List Text)
      → x.parent ≡ p_read
      → x.unread ≡ (b ∷ chunk) ∷ more
      → Move x (record x { parent = p_send; unread = more; buf = b ∷ chunk })
  end_of_input : x.parent ≡ p_read → x.unread ≡ [] → Move x (record x { parent = p_send; buf = [] })
  send : x.parent ≡ p_send → Move x (record x { parent = p_receive; there = x.there ++ x.buf })
  child_read :
      (b : ℕ) (rest : Text)
      → x.child ≡ c_read
      → x.there ≡ b ∷ rest
      → Move x (record x {
        child = c_write;
        there = [];
        child_buf = upper (b ∷ rest) (length (b ∷ rest));
      })
  child_write :
      x.child ≡ c_write → Move x (record x { child = c_read; back = x.back ++ x.child_buf })
  receive :
      (b : ℕ) (rest : Text)
      → x.parent ≡ p_receive
      → x.back ≡ b ∷ rest
      → Move x (record x { parent = p_print; buf = b ∷ rest; back = [] })
  print :
      x.parent ≡ p_print
      → Move x (record x { parent = p_read; printed = x.printed ++ cut_at 0 x.buf ∷ [] })

pub data Reach (chunks : List Text) : Talk → Type 0 where
  begin : Reach chunks (started chunks)
  step : {x x' : Talk} → Reach chunks x → Move x x' → Reach chunks x'
