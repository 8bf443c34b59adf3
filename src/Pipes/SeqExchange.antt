-- ===== src/Pipes/SeqExchange.antt =====
-- linux-api-kerrisk/pipesFIFOs/seqnum: one run of fifo_seqnum_client.c together with
-- fifo_seqnum_server.c. The client sends its request, and only then opens its own FIFO; the server opens
-- that FIFO without waiting. The requests of other clients are rounds of the server. The calls succeed
-- but for the one that opens the client's FIFO.
use operating_systems_theory.Common.{Bool, Option, false, none, some, true, ◌≡◌}
use operating_systems_theory.Common.Int.{ℤ, to_int, ◌+ℤ◌}
pub mod Invariant
pub mod Numbers
pub mod Progress
mod Examples

pub data Client : Type 0 where
  c_mkfifo : Client
  c_send : Client
  c_open : Client
  -- in `open`, where it waits for a writer
  c_waiting : Client
  c_read : Client
  c_done : Client

pub data Server : Type 0 where
  v_read : Server
  v_open : Server
  v_write : Server
  v_save : Server

-- Whether the request is in the server's FIFO; whether the server has opened the client's FIFO, or has
-- given up on it; the response in the client's FIFO; the next number; and the number that the client
-- has printed.
pub record Talk : Type 0 where
  pub client : Client
  pub server : Server
  pub request : Bool
  pub connected : Bool
  pub refused : Bool
  pub response : Option ℤ
  pub seq_num : ℤ
  pub printed : Option ℤ

abbrev pub started : (seq_num : ℤ) → Talk
started seq_num = record {
  client = c_mkfifo;
  server = v_read;
  request = false;
  connected = false;
  refused = false;
  response = none;
  seq_num = seq_num;
  printed = none;
}

-- The FIFO has a reader from the time that the client's `open` begins.
abbrev pub has_reader : Client → Bool
has_reader c_waiting = true
has_reader c_read = true
has_reader c_done = true
has_reader _ = false

-- A step of the client or of the server's round for it. With no reader, `open` with `O_NONBLOCK` fails
-- with ENXIO, and the server goes on with the next request.
pub data Move (seq_len : ℤ) (x : Talk) : Talk → Type 0 where
  mkfifo : x.client ≡ c_mkfifo → Move seq_len x (record x { client = c_send })
  send : x.client ≡ c_send → Move seq_len x (record x { client = c_open; request = true })
  open_fifo : x.client ≡ c_open → Move seq_len x (record x { client = c_waiting })
  opened : x.client ≡ c_waiting → x.connected ≡ true → Move seq_len x (record x { client = c_read })
  read :
      (n : ℤ)
      → x.client ≡ c_read
      → x.response ≡ some n
      → Move seq_len x (record x { client = c_done; response = none; printed = some n })
  accept :
      x.server ≡ v_read
      → x.request ≡ true
      → Move seq_len x (record x { server = v_open; request = false })
  connect :
      x.server ≡ v_open
      → has_reader x.client ≡ true
      → Move seq_len x (record x { server = v_write; connected = true })
  refuse :
      x.server ≡ v_open
      → has_reader x.client ≡ false
      → Move seq_len x (record x { server = v_read; refused = true })
  respond :
      x.server ≡ v_write → Move seq_len x (record x { server = v_save; response = some x.seq_num })
  save :
      x.server ≡ v_save
      → Move seq_len x (record x { server = v_read; seq_num = to_int (x.seq_num +ℤ seq_len) })

-- A round of the server for another client, which may ask for any length.
pub data Other (x : Talk) : Talk → Type 0 where
  served :
      (len : ℤ) → x.server ≡ v_read → Other x (record x { seq_num = to_int (x.seq_num +ℤ len) })

pub data Reach (seq_len start : ℤ) : Talk → Type 0 where
  begin : Reach seq_len start (started start)
  step : {x x' : Talk} → Reach seq_len start x → Move seq_len x x' → Reach seq_len start x'
  other : {x x' : Talk} → Reach seq_len start x → Other x x' → Reach seq_len start x'
