-- ===== src/Pipes/SeqExchange/Progress.antt =====
-- fifo_seqnum_client.c and fifo_seqnum_server.c: where the client can wait for ever.
use operating_systems_theory.Common.{
  Bool-cases, Option-cases, arith, false, inl, inr, refl, true, ◌≡◌,
}
use operating_systems_theory.Common.Int.{ℤ}
use operating_systems_theory.Pipes.SeqExchange.{
  Talk, Client, Move, Reach, Server, accept, c_done, c_mkfifo, c_open, c_read, c_send, c_waiting,
  connect, mkfifo, open_fifo, opened, read, respond, send, v_open, v_read, v_save, v_write,
}
use operating_systems_theory.Pipes.SeqExchange.Invariant.{
  Inv, Reach-Inv, at_open, at_read, at_write, is_done,
}

server_at :
    (s : Server)
    → ((at_open s ≡ true) → s ≡ v_open)
      × ((at_write s ≡ true) → s ≡ v_write)
      × ((at_read s ≡ true) → s ≡ v_read)
server_at v_read = ((λ h. absurd (cc (h))), (λ h. absurd (cc (h))), (λ h. refl))
server_at v_open = ((λ h. refl), (λ h. absurd (cc (h))), (λ h. absurd (cc (h))))
server_at v_write = ((λ h. absurd (cc (h))), (λ h. refl), (λ h. absurd (cc (h))))
server_at v_save = ((λ h. absurd (cc (h))), (λ h. absurd (cc (h))), (λ h. absurd (cc (h))))

client_moves :
    {seq_len : ℤ} (x : Talk) (c : Client)
    → x.client ≡ c
    → Inv x
    → is_done c ≡ false
    → x.refused ≡ false
    → (x' : Talk) × Move seq_len x x'
client_moves x c_mkfifo e i d f = (_, mkfifo e)
client_moves x c_send e i d f = (_, send e)
client_moves x c_open e i d f = (_, open_fifo e)
client_moves x c_waiting e i d f = elim (Bool-cases x.connected) [
  | inl c ↦ (_, opened e c)
  | inr c ↦ elim (Bool-cases x.request) [
    | inl q ↦ (_, accept ((server_at x.server).2 (ground (arith, i.somewhere))) q)
    | inr q ↦ (_, connect ((server_at x.server).0 (ground (arith, i.somewhere))) (rw e refl))
  ]
]
client_moves x c_read e i d f = elim (Option-cases x.response) [
  | inr (n, r) ↦ (_, read n e r)
  | inl r ↦ (_, respond ((server_at x.server).1 (ground (arith, i.pending, i.writer))))
]
client_moves x c_done e i d f = absurd (cc (d))

-- Until the client has printed its number, it or the server's round for it can take a step, unless the
-- server has given up on the client's FIFO, having tried to open it before the client did.
pub client_not_stuck :
    {seq_len start : ℤ} {x : Talk}
    → Reach seq_len start x
    → is_done x.client ≡ false
    → x.refused ≡ false
    → (x' : Talk) × Move seq_len x x'
client_not_stuck {x = x} r d f = client_moves x x.client refl (Reach-Inv r) d f
