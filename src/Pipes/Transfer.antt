-- ===== src/Pipes/Transfer.antt =====
-- linux-api-kerrisk/sockets-UNIX-domain/us-xfr: a client that sends its input over a stream socket, and
-- the server, which writes what it receives. The model follows one connection from `accept` on. The
-- system decides how many bytes a read returns, up to the buffer's size, and which calls fail.
use operating_systems_theory.Common.{ℕ, [], length, suc, take, ◌++◌, ◌<◌, ◌≤◌, ◌≡◌, ◌⊎◌}
use operating_systems_theory.Common.Text.{Text}
pub mod Invariant
pub mod Delivery
mod Examples

abbrev pub buf_size : ℕ
buf_size = 100

pub data Client : Type 0 where
  c_read : Client
  c_write : Client
  c_succeeded : Client
  c_failed : Client

pub data Server : Type 0 where
  v_read : Server
  v_write : Server
  -- back at `accept`
  v_accept : Server
  v_failed : Server

-- The input that is left, both places and buffers (the `numRead` bytes of each), the bytes on the
-- socket, and the output.
pub record Link : Type 0 where
  pub input : Text
  pub client : Client
  pub client_buf : Text
  pub stream : Text
  pub server : Server
  pub server_buf : Text
  pub output : Text

abbrev pub connected : (input : Text) → Link
connected input = record {
  input = input;
  client = c_read;
  client_buf = [];
  stream = [];
  server = v_read;
  server_buf = [];
  output = [];
}

-- The client has exited, which closes its socket.
abbrev pub HasLeft : Client → Type 0
HasLeft client = (client ≡ c_succeeded) ⊎ (client ≡ c_failed)

-- A step in which the calls succeed.
pub data Move (x : Link) : Link → Type 0 where
  read :
      (chunk rest : Text)
      → x.client ≡ c_read
      → x.input ≡ chunk ++ rest
      → 0 < length chunk
      → length chunk ≤ buf_size
      → Move x (record x { client = c_write; client_buf = chunk; input = rest })
  end_of_input : x.client ≡ c_read → x.input ≡ [] → Move x (record x { client = c_succeeded })
  write :
      x.client ≡ c_write → Move x (record x { client = c_read; stream = x.stream ++ x.client_buf })
  receive :
      (chunk rest : Text)
      → x.server ≡ v_read
      → x.stream ≡ chunk ++ rest
      → 0 < length chunk
      → length chunk ≤ buf_size
      → Move x (record x { server = v_write; server_buf = chunk; stream = rest })
  hang_up :
      x.server ≡ v_read → x.stream ≡ [] → HasLeft x.client → Move x (record x { server = v_accept })
  deliver :
      x.server ≡ v_write → Move x (record x { server = v_read; output = x.output ++ x.server_buf })

-- A call that fails, or a write of fewer bytes than asked for: the program ends with an error.
pub data Failure (x : Link) : Link → Type 0 where
  read_fails : x.client ≡ c_read → Failure x (record x { client = c_failed })
  write_fails :
      (n : ℕ)
      → x.client ≡ c_write
      → n < length x.client_buf
      → Failure x (record x { client = c_failed; stream = x.stream ++ take n x.client_buf })
  receive_fails : x.server ≡ v_read → Failure x (record x { server = v_failed })
  deliver_fails :
      (n : ℕ)
      → x.server ≡ v_write
      → n < length x.server_buf
      → Failure x (record x { server = v_failed; output = x.output ++ take n x.server_buf })

-- A run of so many steps, failures included.
pub data Run (input : Text) : ℕ → Link → Type 0 where
  begin : Run input 0 (connected input)
  step : {k : ℕ} {x x' : Link} → Run input k x → Move x x' → Run input (suc k) x'
  failure : {k : ℕ} {x x' : Link} → Run input k x → Failure x x' → Run input (suc k) x'
