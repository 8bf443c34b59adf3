-- ===== src/Pipes/Transfer/Delivery.antt =====
-- us-xfr: what the server has written, and that the connection comes to an end.
use operating_systems_theory.Common.{
  length-take, ℕ, [], length, ◌++◌, ◌+◌, ◌<◌, ◌≤◌, ◌*◌, ◌∷◌, ◌≡◌, Bool, false, true, arith, refl,
  ◌⊎◌, List-cases, inl, inr, ◌∙◌, sym, length-append, append-nil, take,
}
use operating_systems_theory.Common.Text.{Text}
use operating_systems_theory.Pipes.Transfer.{
  Link, Client, Failure, HasLeft, Move, Run, Server, begin, c_failed, c_read, c_succeeded, c_write,
  deliver, deliver_fails, end_of_input, failure, hang_up, read, read_fails, receive, receive_fails,
  step, v_accept, v_failed, v_read, v_write, write, write_fails,
}
use operating_systems_theory.Pipes.Transfer.Invariant.{Run-Inv, to_deliver, to_send}

-- At every moment, failures included, the server has written a first part of the client's input.
pub written_in_order :
    {input : Text} {k : ℕ} {x : Link} → Run input k x → (rest : Text) × (x.output ++ rest ≡ input)
written_in_order {input} r = (_, (Run-Inv input r).account)

-- If the client has exited with success and the server is back at `accept`, the server has written the
-- whole input, however its bytes were split over the reads and the two programs interleaved.
pub written_whole :
    {input : Text} {k : ℕ} {x : Link}
    → Run input k x
    → x.client ≡ c_succeeded
    → x.server ≡ v_accept
    → x.output ≡ input
unfolding to_send to_deliver
written_whole {input} {x = x} r e f =
    let i = Run-Inv input r in
    let at_server : i.lost_by_server ≡ [] = i.server_fine (rw f refl) in
    let at_client : i.lost_by_client ≡ [] = i.client_fine (rw e refl) in
    let sent : x.stream ≡ [] = (i.hung_up (rw f refl)).0 in
    let used_up : x.input ≡ [] = i.at_end (rw e refl) in
    sym (append-nil x.output) ∙ (rw (e, f, at_server, at_client, sent, used_up) at i.account)

-- The work left in a state: each step takes some.
client_work : Client → Text → ℕ
client_work c_read client_buf = 1
client_work c_write client_buf = 2 * length client_buf + 2
client_work _ client_buf = 0

server_work : Server → ℕ
server_work v_read = 1
server_work v_write = 2
server_work _ = 0

work : Link → ℕ
work x =
    4 * length x.input
    + client_work x.client x.client_buf
    + 2 * length x.stream
    + server_work x.server

Move-work : {x x' : Link} → Move x x' → work x' < work x
unfolding work client_work server_work
Move-work (read chunk rest e u nonempty few) = rw (e, u) (omega (arith, length-append chunk rest))
Move-work (end_of_input e u) = rw e (omega arith)
Move-work {x} (write e) = rw e (omega (arith, length-append x.stream x.client_buf))
Move-work (receive chunk rest e u nonempty few) =
    rw (e, u) (omega (arith, length-append chunk rest))
Move-work (hang_up e u left) = rw e (omega arith)
Move-work (deliver e) = rw e (omega arith)

Failure-work : {x x' : Link} → Failure x x' → work x' < work x
unfolding work client_work server_work
Failure-work (read_fails e) = rw e (omega arith)
Failure-work {x} (write_fails n e less) =
    rw e (omega (arith, length-append x.stream (take n x.client_buf), length-take n x.client_buf))
Failure-work (receive_fails e) = rw e (omega arith)
Failure-work (deliver_fails n e less) = rw e (omega arith)

Run-work : {input : Text} {k : ℕ} {x : Link} → Run input k x → k + work x ≤ 4 * length input + 2
unfolding work client_work server_work
Run-work begin = omega arith
Run-work (step r m) = omega (arith, Run-work r, Move-work m)
Run-work (failure r f) = omega (arith, Run-work r, Failure-work f)

-- The server is connected.
abbrev pub serves : Server → Bool
serves v_read = true
serves v_write = true
serves _ = false

serves_work : (s : Server) → serves s ≡ true → 0 < server_work s
unfolding server_work
serves_work v_read h = omega arith
serves_work v_write h = omega arith
serves_work v_accept h = absurd (cc (h))
serves_work v_failed h = absurd (cc (h))

Client-cases : (c : Client) → ((c ≡ c_read) ⊎ (c ≡ c_write)) ⊎ HasLeft c
Client-cases c_read = inl (inl refl)
Client-cases c_write = inl (inr refl)
Client-cases c_succeeded = inr (inl refl)
Client-cases c_failed = inr (inr refl)

Server-cases : (s : Server) → serves s ≡ true → (s ≡ v_read) ⊎ (s ≡ v_write)
Server-cases v_read h = inl refl
Server-cases v_write h = inr refl
Server-cases v_accept h = absurd (cc (h))
Server-cases v_failed h = absurd (cc (h))

serves-Move : (x : Link) → serves x.server ≡ true → (x' : Link) × Move x x'
serves-Move x h = elim (Server-cases x.server h) [
  | inr f ↦ (_, deliver f)
  | inl f ↦ elim (List-cases x.stream) [
    | inr (b, rest, u) ↦ (_, receive (b ∷ []) rest f u (omega arith) (omega arith))
    | inl none_sent ↦ elim (Client-cases x.client) [
      | inr left ↦ (_, hang_up f none_sent left)
      | inl (inr e) ↦ (_, write e)
      | inl (inl e) ↦ elim (List-cases x.input) [
        | inl none_left ↦ (_, end_of_input e none_left)
        | inr (b, rest, u) ↦ (_, read (b ∷ []) rest e u (omega arith) (omega arith))
      ]
    ]
  ]
]

-- As long as the server is connected, whether the client has failed or not, some step in which the
-- calls succeed can be taken, and the steps so far, failures included, are fewer than four for each
-- byte of the input and two more: the connection comes to an end, and never waits for ever.
pub connection_ends :
    {input : Text} {k : ℕ} {x : Link}
    → Run input k x
    → serves x.server ≡ true
    → ((x' : Link) × Move x x') × (k < 4 * length input + 2)
unfolding work
connection_ends {x = x} r h = (serves-Move x h, omega (arith, Run-work r, serves_work x.server h))
