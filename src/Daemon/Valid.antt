-- ===== src/Daemon/Valid.antt =====
-- When the server of examples/daemon_sender_uv.c is well formed.
use dnswire.Prelude.{
  ℕ, ◌≤◌, ◌<◌, ◌≡◌, ◌≢◌, ◌⊎◌, List, [], ◌∷◌, Option, none, some, length, take, All,
}
use dnswire.Exec.{ret, Bytes}
use dnswire.Tinyframe.{Tinyframe}
use dnswire.Dnstap.{Dnstap, Protobuf}
use dnswire.Daemon.{
  ClientState, no_state, writing_start, started, writing_frame, Request, Client, Server, Header,
  buf_size, control_start, make_frame,
}

-- The states in which the server waits for a request to end.
abbrev pub Busy : ClientState → Type 0
Busy writing_start = Unit
Busy writing_frame = Unit
Busy _ = ⊥

abbrev pub IsFresh : ℕ → List Client → Type 0
IsFresh a cs = All (λ c. c.address ≢ a) cs

-- No two clients share an address.
abbrev pub Apart : List Client → Type 0
Apart [] = Unit
Apart (c ∷ cs) = IsFresh c.address cs × Apart cs

-- The ids fall along the list, from below `n`: the newest client is the first.
abbrev pub Falling : ℕ → List Client → Type 0
Falling n [] = Unit
Falling n (c ∷ cs) = (c.id < n) × Falling c.id cs

module _ (t : Tinyframe) (pb : Protobuf) (h : Header) where
  abbrev pub IsFrame : Bytes → Type 0
  IsFrame w = (d : Dnstap) × (make_frame pb h d ≡ ret w)

  -- The requests of a client, the last one first: frames, and the control start before them.
  abbrev pub Stream : List Bytes → Type 0
  Stream [] = ⊥
  Stream (w ∷ []) = w ≡ (control_start t).2
  Stream (w ∷ (v ∷ ws)) = IsFrame w × Stream (v ∷ ws)

  -- In a state, what was sent.
  abbrev pub Sent : ClientState → List Bytes → Type 0
  Sent no_state ws = ws ≡ []
  Sent writing_start ws = (ws ≡ []) ⊎ (ws ≡ (control_start t).2 ∷ [])
  Sent started ws = Stream ws
  Sent writing_frame ws = Stream ws

  -- A request in flight: the server waits for it, and the bytes that libuv still reads are those
  -- that it was given.
  abbrev pub InFlight : Option Request → ClientState → Bytes → List Bytes → Type 0
  InFlight none s b ws = Unit
  InFlight (some q) s b ws = Busy s × (q.len ≤ length b) × (take q.len b ≡ q.bytes) × Stream ws

  pub record IsClient (c : Client) : Type 0 where
    pub room : length c.buf ≡ buf_size
    pub sent : Sent c.state c.conn.taken
    pub flight : InFlight c.conn.request c.state c.buf c.conn.taken

  pub record IsServer (s : Server) : Type 0 where
    pub all : All IsClient s.clients
    pub apart : Apart s.clients
    pub falling : Falling s.client_id s.clients
