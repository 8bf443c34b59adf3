-- ===== src/Pipes/Uppercase/Results.antt =====
-- to_uppercase.c: what is printed in the end.
use operating_systems_theory.Common.{
  Bool, List, [], ◌++◌, ◌∷◌, ◌≡◌, false, true, map, refl, ◌∙◌, append-nil, sym, List-cases, inl,
  inr,
}
use operating_systems_theory.Common.Text.{Text}
use operating_systems_theory.Pipes.Uppercase.{to_upper}
use operating_systems_theory.Pipes.Uppercase.Conversation.{
  Talk, Move, Reach, begin, child_read, child_write, end_of_input, p_receive, print, read, receive,
  send, step,
}
use operating_systems_theory.Pipes.Uppercase.Phases.{
  results, Phase, answered, ending, hung, idle, printing, sending, sent, working,
}
use operating_systems_theory.Pipes.Uppercase.Turns.{Reach-Inv}

-- No read of the input gives no bytes.
abbrev pub all_nonempty : List Text → Bool
all_nonempty [] = true
all_nonempty ([] ∷ chunks) = false
all_nonempty ((b ∷ chunk) ∷ chunks) = all_nonempty chunks

Move-nonempty :
    {x x' : Talk} → Move x x' → all_nonempty x.unread ≡ true → all_nonempty x'.unread ≡ true
Move-nonempty (read b chunk more e u) h = rw u at h
Move-nonempty (end_of_input e u) h = h
Move-nonempty (send e) h = h
Move-nonempty (child_read b rest e q) h = h
Move-nonempty (child_write e) h = h
Move-nonempty (receive b rest e q) h = h
Move-nonempty (print e) h = h

Reach-nonempty :
    {chunks : List Text} {x : Talk}
    → all_nonempty chunks ≡ true
    → Reach chunks x
    → all_nonempty x.unread ≡ true
Reach-nonempty ok begin = ok
Reach-nonempty ok (step r m) = Move-nonempty m (Reach-nonempty ok r)

-- Where no step is left, the parent waits for an answer to no bytes.
stuck-account :
    (chunks : List Text) {x : Talk} {now : List Text}
    → Phase x now
    → x.printed ++ (now ++ results x.unread) ≡ results chunks
    → all_nonempty x.unread ≡ true
    → ¬ ((x' : Talk) × Move x x')
    → (x.printed ≡ results chunks) × (x.parent ≡ p_receive)
unfolding results
stuck-account chunks {x} idle a ok stuck = elim (List-cases x.unread) [
  | inl u ↦ absurd (stuck (_, end_of_input refl u))
  | inr ([], more, u) ↦ absurd (cc (rw u at ok))
  | inr (b ∷ chunk, more, u) ↦ absurd (stuck (_, read b chunk more refl u))
]
stuck-account chunks (sending b chunk) a ok stuck = absurd (stuck (_, send refl))
stuck-account chunks (sent b chunk) a ok stuck = absurd (stuck (_, child_read b chunk refl refl))
stuck-account chunks (working b chunk c) a ok stuck = absurd (stuck (_, child_write refl))
stuck-account chunks (answered b chunk c) a ok stuck =
    absurd (stuck (_, receive (to_upper b) (map to_upper chunk) refl c))
stuck-account chunks (printing b chunk) a ok stuck = absurd (stuck (_, print refl))
stuck-account chunks (ending c) a ok stuck = absurd (stuck (_, send refl))
stuck-account chunks {x} (hung c) a ok stuck = (sym (append-nil x.printed) ∙ (rw c at a), refl)

-- A run stops only when the results of the whole input are printed, each once and in order; and then
-- the parent, which does not look for the end of its input, waits for an answer that never comes.
pub all_results :
    (chunks : List Text) {x : Talk}
    → all_nonempty chunks ≡ true
    → Reach chunks x
    → ¬ ((x' : Talk) × Move x x')
    → (x.printed ≡ results chunks) × (x.parent ≡ p_receive)
all_results chunks ok r stuck =
    let i = Reach-Inv chunks r in stuck-account chunks i.phase i.account (Reach-nonempty ok r) stuck
