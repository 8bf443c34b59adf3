-- ===== src/Pipes/Uppercase/Turns.antt =====
-- to_uppercase.c: the parent and the child take turns, and what they print.
use operating_systems_theory.Common.{
  List, [], ◌++◌, ◌∷◌, ◌≡◌, map, append_assoc, refl, ap, ◌∙◌, sym,
}
use operating_systems_theory.Common.Text.{Text, cut_at}
use operating_systems_theory.Pipes.Uppercase.{to_upper, upper-map}
use operating_systems_theory.Pipes.Uppercase.Conversation.{
  Talk, Move, Reach, begin, child_read, child_write, end_of_input, print, read, receive, send, step,
}
use operating_systems_theory.Pipes.Uppercase.Phases.{
  results, Inv, Phase, answered, ending, hung, idle, printing, result, sending, sent, working,
}

Move-Inv :
    (chunks : List Text) {x x' : Talk} {now : List Text}
    → Phase x now
    → x.printed ++ (now ++ results x.unread) ≡ results chunks
    → Move x x'
    → Inv chunks x'
unfolding results result
Move-Inv chunks idle a (read b' c' more e u) = record {
  now = _;
  phase = sending b' c';
  account = rw u at a;
}
Move-Inv chunks idle a (end_of_input e u) = record { now = []; phase = ending u; account = a }
Move-Inv chunks idle a (send e) = absurd (cc (e))
Move-Inv chunks idle a (child_read b' rest e q) = absurd (cc (q))
Move-Inv chunks idle a (child_write e) = absurd (cc (e))
Move-Inv chunks idle a (receive b' rest e q) = absurd (cc (e))
Move-Inv chunks idle a (print e) = absurd (cc (e))
Move-Inv chunks (sending b chunk) a (read b' c' more e u) = absurd (cc (e))
Move-Inv chunks (sending b chunk) a (end_of_input e u) = absurd (cc (e))
Move-Inv chunks (sending b chunk) a (send e) = record { now = _; phase = sent b chunk; account = a }
Move-Inv chunks (sending b chunk) a (child_read b' rest e q) = absurd (cc (q))
Move-Inv chunks (sending b chunk) a (child_write e) = absurd (cc (e))
Move-Inv chunks (sending b chunk) a (receive b' rest e q) = absurd (cc (e))
Move-Inv chunks (sending b chunk) a (print e) = absurd (cc (e))
Move-Inv chunks (sent b chunk) a (read b' c' more e u) = absurd (cc (e))
Move-Inv chunks (sent b chunk) a (end_of_input e u) = absurd (cc (e))
Move-Inv chunks (sent b chunk) a (send e) = absurd (cc (e))
Move-Inv chunks (sent b chunk) a (child_read b' rest e q) = record {
  now = _;
  phase = working b chunk (upper-map (b' ∷ rest) ∙ ap (map to_upper) (sym q));
  account = a;
}
Move-Inv chunks (sent b chunk) a (child_write e) = absurd (cc (e))
Move-Inv chunks (sent b chunk) a (receive b' rest e q) = absurd (cc (q))
Move-Inv chunks (sent b chunk) a (print e) = absurd (cc (e))
Move-Inv chunks (working b chunk c) a (read b' c' more e u) = absurd (cc (e))
Move-Inv chunks (working b chunk c) a (end_of_input e u) = absurd (cc (e))
Move-Inv chunks (working b chunk c) a (send e) = absurd (cc (e))
Move-Inv chunks (working b chunk c) a (child_read b' rest e q) = absurd (cc (e))
Move-Inv chunks (working b chunk c) a (child_write e) = record {
  now = _;
  phase = answered b chunk c;
  account = a;
}
Move-Inv chunks (working b chunk c) a (receive b' rest e q) = absurd (cc (q))
Move-Inv chunks (working b chunk c) a (print e) = absurd (cc (e))
Move-Inv chunks (answered b chunk c) a (read b' c' more e u) = absurd (cc (e))
Move-Inv chunks (answered b chunk c) a (end_of_input e u) = absurd (cc (e))
Move-Inv chunks (answered b chunk c) a (send e) = absurd (cc (e))
Move-Inv chunks (answered b chunk c) a (child_read b' rest e q) = absurd (cc (q))
Move-Inv chunks (answered b chunk c) a (child_write e) = absurd (cc (e))
Move-Inv chunks (answered b chunk c) a (receive b' rest e q) = record {
  now = _;
  phase = printing b' rest;
  account = rw (sym c ∙ q) at a;
}
Move-Inv chunks (answered b chunk c) a (print e) = absurd (cc (e))
Move-Inv chunks (printing b chunk) a (read b' c' more e u) = absurd (cc (e))
Move-Inv chunks (printing b chunk) a (end_of_input e u) = absurd (cc (e))
Move-Inv chunks (printing b chunk) a (send e) = absurd (cc (e))
Move-Inv chunks (printing b chunk) a (child_read b' rest e q) = absurd (cc (q))
Move-Inv chunks (printing b chunk) a (child_write e) = absurd (cc (e))
Move-Inv chunks (printing b chunk) a (receive b' rest e q) = absurd (cc (e))
Move-Inv chunks {x = x} (printing b chunk) a (print e) = record {
  now = [];
  phase = idle;
  account = append_assoc x.printed (cut_at 0 (b ∷ chunk) ∷ []) (results x.unread) ∙ a;
}
Move-Inv chunks (ending c) a (read b' c' more e u) = absurd (cc (e))
Move-Inv chunks (ending c) a (end_of_input e u) = absurd (cc (e))
Move-Inv chunks (ending c) a (send e) = record { now = _; phase = hung c; account = a }
Move-Inv chunks (ending c) a (child_read b' rest e q) = absurd (cc (q))
Move-Inv chunks (ending c) a (child_write e) = absurd (cc (e))
Move-Inv chunks (ending c) a (receive b' rest e q) = absurd (cc (e))
Move-Inv chunks (ending c) a (print e) = absurd (cc (e))
Move-Inv chunks (hung c) a (read b' c' more e u) = absurd (cc (e))
Move-Inv chunks (hung c) a (end_of_input e u) = absurd (cc (e))
Move-Inv chunks (hung c) a (send e) = absurd (cc (e))
Move-Inv chunks (hung c) a (child_read b' rest e q) = absurd (cc (q))
Move-Inv chunks (hung c) a (child_write e) = absurd (cc (e))
Move-Inv chunks (hung c) a (receive b' rest e q) = absurd (cc (q))
Move-Inv chunks (hung c) a (print e) = absurd (cc (e))

pub Reach-Inv : (chunks : List Text) {x : Talk} → Reach chunks x → Inv chunks x
Reach-Inv chunks begin = record { now = []; phase = idle; account = refl }
Reach-Inv chunks (step r m) = let i = Reach-Inv chunks r in Move-Inv chunks i.phase i.account m

-- At every moment what is printed is a first part of the results: each read of the input, in upper case
-- and up to its first zero byte, in order.
pub printed-results :
    (chunks : List Text) {x : Talk}
    → Reach chunks x
    → (rest : List Text) × (x.printed ++ rest ≡ results chunks)
printed-results chunks {x} r = let i = Reach-Inv chunks r in (i.now ++ results x.unread, i.account)
