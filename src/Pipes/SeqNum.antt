-- ===== src/Pipes/SeqNum.antt =====
-- linux-api-kerrisk/pipesFIFOs/seqnum/fifo_seqnum_server.c: a server that hands out ranges of sequence
-- numbers, and keeps the next number in a file.
use operating_systems_theory.Common.{
  ℕ, Bool, List, Option, [], arith, false, if◌then◌else◌, none, refl, some, true, ◌∷◌, ◌≡◌,
}
use operating_systems_theory.Common.Int.{ℤ, InInt, to_int, to_int-InInt, +ℤ_parts, pos, ◌+ℤ◌, ◌≤ℤ◌}
mod Examples

-- `struct request`
pub record Request : Type 0 where
  pub pid : ℕ
  pub seq_len : ℤ

-- The state of the server: the next number, and the number in its file, if it holds one.
pub record Server : Type 0 where
  pub seq_num : ℤ
  pub init_file : Option ℤ

-- The start of `main`: the number in the file, or 0 for an empty file.
pub boot : Option ℤ → Server
boot none = record { seq_num = pos 0; init_file = none }
boot (some n) = record { seq_num = n; init_file = some n }

-- What comes through the FIFO, with how the client's FIFO behaves: a whole request or a part of one;
-- whether it can be opened, and whether the response can be written.
pub data Event : Type 0 where
  short_read : Event
  request : Request → (opens writes : Bool) → Event

-- A response: to which process, and its number.
abbrev pub Response : Type 0
Response = ℕ × ℤ

-- `seqNum += req.seqLen`, on `int`, and the number written to the file in place of the old one.
abbrev advance : Server → ℤ → Server
advance s len =
    let next = to_int (s.seq_num +ℤ len) in record s { seq_num = next; init_file = some next }

-- One round of the loop: the response that reaches the client, if any, and the server after it. The
-- calls on the server's own file succeed.
pub serve : Server → Event → Option Response × Server
serve s short_read = (none, s)
serve s (request req opens writes) =
    if opens
    then (if writes then some (req.pid, s.seq_num) else none, advance s req.seq_len)
    else (none, s)

-- The length that an event asks for.
pub asked : Event → ℤ
asked short_read = pos 0
asked (request req opens writes) = req.seq_len

-- The rounds for a list of events: the responses with the lengths asked for, in order.
pub run : Server → List Event → List (Response × ℤ) × Server
unfolding serve asked
run s [] = ([], s)
run s (e ∷ es) =
    let (out, s') = serve s e in
    let (outs, s'') = run s' es in (elim out [ none ↦ outs | some r ↦ (r, asked e) ∷ outs ], s'')

-- Every length asked for is at least 0, and what the server adds stays within `int`.
unfoldable pub AllFit : Server → List Event → Type 0
AllFit s [] = Unit
AllFit s (e ∷ es) = (pos 0 ≤ℤ asked e) × InInt (s.seq_num +ℤ asked e) × AllFit (serve s e).1 es

-- Every range handed out starts at `from` or later.
abbrev pub FromOn : ℤ → List (Response × ℤ) → Type 0
FromOn from [] = Unit
FromOn from (((_, n), len) ∷ rs) = (from ≤ℤ n) × FromOn from rs

-- Each range ends before the later ones start.
abbrev pub Disjoint : List (Response × ℤ) → Type 0
Disjoint [] = Unit
Disjoint (((_, n), len) ∷ rs) = FromOn (n +ℤ len) rs × Disjoint rs

advance-eq :
    (s : Server) (len : ℤ) → InInt (s.seq_num +ℤ len) → (advance s len).seq_num ≡ s.seq_num +ℤ len
advance-eq s len h = to_int-InInt (s.seq_num +ℤ len) h

run-FromOn :
    (es : List Event) (s : Server) (from : ℤ)
    → AllFit s es
    → from ≤ℤ s.seq_num
    → FromOn from (run s es).0
unfolding AllFit run asked serve
run-FromOn [] s from h le = tt
run-FromOn (short_read ∷ es) s from (up, fits, h) le = run-FromOn es s from h le
run-FromOn (request req true true ∷ es) s from (up, fits, h) le = (
  le,
  run-FromOn es (advance s req.seq_len) from h
      (rw (advance-eq s req.seq_len fits) (omega (arith, +ℤ_parts s.seq_num req.seq_len))),
)
run-FromOn (request req true false ∷ es) s from (up, fits, h) le =
    run-FromOn es (advance s req.seq_len) from h
      (rw (advance-eq s req.seq_len fits) (omega (arith, +ℤ_parts s.seq_num req.seq_len)))
run-FromOn (request req false w ∷ es) s from (up, fits, h) le = run-FromOn es s from h le

-- If every client asks for a length of at least 0, and no number that the server computes leaves the
-- range of `int`, no two ranges handed out overlap, whichever requests are cut short or lost on the
-- way back.
pub run-Disjoint : (es : List Event) (s : Server) → AllFit s es → Disjoint (run s es).0
unfolding AllFit run asked serve
run-Disjoint [] s h = tt
run-Disjoint (short_read ∷ es) s (up, fits, h) = run-Disjoint es s h
run-Disjoint (request req true true ∷ es) s (up, fits, h) = (
  run-FromOn es (advance s req.seq_len) (s.seq_num +ℤ req.seq_len) h
      (rw (advance-eq s req.seq_len fits) (omega arith)),
  run-Disjoint es (advance s req.seq_len) h,
)
run-Disjoint (request req true false ∷ es) s (up, fits, h) =
    run-Disjoint es (advance s req.seq_len) h
run-Disjoint (request req false w ∷ es) s (up, fits, h) = run-Disjoint es s h

run-file :
    (es : List Event) (s : Server)
    → s.init_file ≡ some s.seq_num
    → (run s es).1.init_file ≡ some (run s es).1.seq_num
unfolding run
run-file [] s h = h
run-file (short_read ∷ es) s h = run-file es s h
run-file (request req true true ∷ es) s h = run-file es _ refl
run-file (request req true false ∷ es) s h = run-file es _ refl
run-file (request req false w ∷ es) s h = run-file es s h

boot-eq : (s : Server) → s.init_file ≡ some s.seq_num → boot s.init_file ≡ s
unfolding boot
boot-eq s h = ground arith

-- A server started on a file that holds a number, stopped after any events and started again on the
-- file that it leaves, goes on in the state in which it stopped.
pub boot-run :
    (n : ℤ) (es : List Event)
    → boot (run (boot (some n)) es).1.init_file ≡ (run (boot (some n)) es).1
unfolding boot
boot-run n es =
    boot-eq (run (record { seq_num = n; init_file = some n }) es).1
      (run-file es (record { seq_num = n; init_file = some n }) refl)
