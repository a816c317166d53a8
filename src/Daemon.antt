-- ===== src/Daemon.antt =====
-- examples/daemon_sender_uv.c, a server that sends a message to every client once a second. The
-- callbacks that libuv calls are functions on the server's state. The list from `clients` along
-- `next` is a list, in which a client has the address that `malloc` gave it; the fields `data` and
-- `wbuf.base` always point into the client itself.
pub mod Valid
pub mod Offers
pub mod Clients
pub mod Tick
pub mod Callbacks
pub mod Served
use dnswire.Create.{Inputs, create_dnstap}
use dnswire.Prelude.{
  ℕ, ◌+◌, ◌≡◌, Bool, true, false, List, [], ◌∷◌, ◌++◌, Option, none, some, length, take, replicate,
  ltb, ◌==◌, if◌then◌else◌,
}
use dnswire.Prelude.Size.{add_size}
use dnswire.Exec.{Exec, ret, ◌>>=◌, Bytes, slice, store}
use dnswire.Tinyframe.{TinyframeResult, ok, Tinyframe}
use dnswire.Dnstap.{Dnstap, Protobuf, encode_protobuf_size, encode_protobuf}
use dnswire.Decoder.ContentType.{content_type}

-- BUF_SIZE
abbrev pub buf_size : ℕ
buf_size = 4096

pub data ClientState : Type 0 where
  no_state writing_start started writing_frame : ClientState

-- A request that `uv_write` has taken: libuv reads `len` bytes at the pointer it was given when it
-- comes to write them; `bytes` are those that were there when it took the request.
pub record Request : Type 0 where
  pub len : ℕ
  pub bytes : Bytes

-- What libuv keeps of a connection: whether it reads, how often `uv_close` was called, the request
-- in flight, and the requests that it has taken, with the last one first.
pub record Handle : Type 0 where
  pub is_reading : Bool
  pub closes : ℕ
  pub request : Option Request
  pub taken : List Bytes

pub record Client : Type 0 where
  pub address : ℕ
  pub id : ℕ
  pub state : ClientState
  pub conn : Handle
  pub wbuf_len : ℕ
  pub buf : Bytes

pub record Server : Type 0 where
  pub clients : List Client
  pub client_id : ℕ

-- The initial values of `clients` and `client_id`.
abbrev pub initial_server : Server
initial_server = record { clients = []; client_id = 1 }

-- What `malloc` gives: an address, and a content that was never written.
pub record Block : Type 0 where
  pub address : ℕ
  pub wbuf_len : ℕ
  pub buf : Bytes

-- `uv_tcp_init`
abbrev pub idle_handle : Handle
idle_handle = record { is_reading = false; closes = 0; request = none; taken = [] }

-- `client_new`, where `malloc` gives a block.
unfoldable pub client_new : Block → Server → Client × Server
unfolding add_size
client_new m s =
    let c : Client = record {
      address = m.address;
      id = s.client_id;
      state = no_state;
      conn = idle_handle;
      wbuf_len = m.wbuf_len;
      buf = m.buf;
    } in
    (c, record { clients = c ∷ s.clients; client_id = add_size (s.client_id) 1 })

-- The loop of `client_close`: `prev` stands before the clients in the list.
unfoldable pub unlink_after : ℕ → Client → List Client → List Client
unlink_after a prev [] = prev ∷ []
unlink_after a prev (c ∷ cs) =
    let rest = unlink_after a c cs in if c.address == a then prev ∷ cs else prev ∷ rest

unfoldable pub unlink : ℕ → List Client → List Client
unfolding unlink_after
unlink a [] = []
unlink a (c ∷ cs) = if c.address == a then cs else unlink_after a c cs

unfoldable pub client_close : ℕ → Server → Server
unfolding unlink
client_close a s = record s { clients = unlink a s.clients }

-- A callback of the client at an address.
unfoldable pub at_client : ℕ → (Client → Client) → List Client → List Client
at_client a f [] = []
at_client a f (c ∷ cs) = if c.address == a then f c ∷ cs else c ∷ at_client a f cs

-- `uv_close`
unfoldable pub uv_close : Client → Client
uv_close c = record c { conn = record (c.conn) { is_reading = false; closes = c.conn.closes + 1 } }

-- `nread`: a number of bytes, or an error; UV_EOF is one of the errors.
pub data Nread : Type 0 where
  got : ℕ → Nread
  eof failed : Nread

unfoldable pub client_read : Nread → Client → Client
unfolding uv_close
client_read (got n) c = c
client_read eof c = uv_close c
client_read failed c = uv_close c

-- `true` is the status 0.
unfoldable pub client_write : Bool → Client → Client
unfolding uv_close
client_write true c = record c { state = started }
client_write false c = uv_close c

-- libuv is done with a request, and calls back.
unfoldable pub written : Bool → Client → Client
unfolding client_write
written status c = elim c.conn.request [
  | none ↦ c
  | some q ↦ client_write status (record c { conn = record (c.conn) { request = none } })
]

-- `uv_write` of the first `wbuf.len` bytes of `buf`. It may refuse (`takes` is false), and the
-- server does not look at what it returns.
unfoldable pub uv_write : Bool → Client → Exec Client
unfolding slice
uv_write takes c = do
  w ← slice c.buf 0 c.wbuf_len
  ret (
      if takes
      then record c {
        conn = record (c.conn) {
          request = some (record { len = c.wbuf_len; bytes = w });
          taken = w ∷ c.conn.taken;
        };
      }
      else c)

-- Store bytes at the start of `buf`, and send them.
unfoldable pub submit : Bool → ClientState → Bytes → ℕ → Client → Exec Client
unfolding store uv_write
submit takes state out n c = do
  b ← store c.buf 0 out
  d ← uv_write takes (record c { buf = b; wbuf_len = n })
  ret (record d { state = state })

-- TINYFRAME_HEADER_SIZE and `tinyframe_set_header`, which stores the length in the header.
pub record Header : Type 0 where
  pub size : ℕ
  pub set : Bytes → ℕ → Bytes

pub record IsHeader (h : Header) : Type 0 where
  pub set_length : (frame : Bytes) (n : ℕ) → length (h.set frame n) ≡ length frame

module _ (t : Tinyframe) where
  -- `tinyframe_write_control_start` into the room of `buf`.
  unfoldable pub control_start : TinyframeResult × t.Writer × Bytes
  control_start = t.write_control_start t.writer_initializer buf_size content_type

  abbrev pub is_ok : TinyframeResult → Bool
  is_ok ok = true
  is_ok _ = false

  -- With what `tinyframe_write_control_start` did: it has stored its bytes in `buf`.
  unfoldable pub on_start : TinyframeResult × t.Writer × Bytes → Bool → Client → Exec Client
  unfolding submit uv_close
  on_start w takes c =
      if is_ok w.0
      then submit takes writing_start w.2 (t.bytes_wrote w.1) c
      else do b ← store c.buf 0 w.2; ret (uv_close (record c { buf = b }))

  -- The part of `on_new_connection` after `uv_accept`.
  unfoldable pub send_start : Bool → Client → Exec Client
  unfolding on_start
  send_start takes c =
      on_start control_start takes (record c { conn = record (c.conn) { is_reading = true } })

  -- `status` is false for an error; `none` is a failed `malloc`.
  unfoldable pub on_new_connection : Bool → Option Block → Bool → Bool → Server → Exec Server
  unfolding client_new send_start uv_close
  on_new_connection false m accepted takes s = ret s
  on_new_connection true none accepted takes s = ret s
  on_new_connection true (some m) accepted takes s =
      let x = client_new m s in
      do
        c ← (if accepted then send_start takes x.0 else ret (uv_close x.0))
        ret (record (x.1) { clients = c ∷ s.clients })

module _ (pb : Protobuf) (h : Header) where
  -- The frame of a message: the array is filled behind the header, then the header is set.
  unfoldable pub make_frame : Dnstap → Exec Bytes
  unfolding store
  make_frame d = do
    n ← encode_protobuf_size pb d
    p ← encode_protobuf pb d
    f ← store (replicate (h.size + n) 0) h.size p
    ret (h.set f n)

  -- The body of the loop over the clients. `takes` says which of them `uv_write` refuses.
  unfoldable pub offer_in : ClientState → Bool → Bytes → Client → Exec Client
  unfolding submit
  offer_in started takes frame c = submit takes writing_frame frame (length frame) c
  offer_in _ takes frame c = ret c

  unfoldable pub offer_all : (ℕ → Bool) → Bytes → List Client → Exec (List Client)
  unfolding offer_in
  offer_all takes frame [] = ret []
  offer_all takes frame (c ∷ cs) = do
    d ← offer_in c.state (takes c.address) frame c
    ds ← offer_all takes frame cs
    ret (d ∷ ds)

  -- `tick` after the message is made. `none` is `exit(1)`.
  unfoldable pub tick_with : Dnstap → (ℕ → Bool) → Server → Exec (Option Server)
  unfolding offer_all make_frame
  tick_with d takes s = do
    frame ← make_frame d
    if ltb buf_size (length frame)
        then ret none
        else do cs ← offer_all takes frame s.clients; ret (some (record s { clients = cs }))

  unfoldable pub tick : Inputs → (ℕ → Bool) → Server → Exec (Option Server)
  unfolding tick_with
  tick i takes s = tick_with (create_dnstap pb i) takes s
