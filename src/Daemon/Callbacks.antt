-- ===== src/Daemon/Callbacks.antt =====
-- The callbacks of one client in examples/daemon_sender_uv.c keep it well formed.
use dnswire.Prelude.{
  ◌≡◌, refl, subst, ◌∙◌, Bool, true, false, [], none, some, length, inl, inr, arith,
}
use dnswire.Exec.{Bytes, Ensures}
use dnswire.Exec.Rules.{Ensures-mono, store_lem, length_stored}
use dnswire.Tinyframe.{TinyframeResult, Tinyframe, Wrote}
use dnswire.Dnstap.{Protobuf}
use dnswire.Daemon.{
  no_state, writing_start, Request, Client, Nread, got, eof, failed, Header, buf_size, uv_close,
  client_read, client_write, written, control_start, on_start,
}
use dnswire.Daemon.Valid.{InFlight, IsClient}
use dnswire.Daemon.Offers.{Submitted, submit_lem, submitted}
use dnswire.Daemon.Clients.{Same}

module _ (t : Tinyframe) (pb : Protobuf) (h : Header) where
  pub uv_close-IsClient : (c : Client) → IsClient t pb h c → IsClient t pb h (uv_close c)
  unfolding uv_close
  uv_close-IsClient c v = record { room = v.room; sent = v.sent; flight = v.flight }

  pub client_read-IsClient :
      (n : Nread) (c : Client) → IsClient t pb h c → IsClient t pb h (client_read n c)
  unfolding client_read
  client_read-IsClient (got n) c v = v
  client_read-IsClient eof c v = uv_close-IsClient c v
  client_read-IsClient failed c v = uv_close-IsClient c v

  pub client_read-Same : (n : Nread) (c : Client) → Same c (client_read n c)
  unfolding client_read
  client_read-Same (got n) c = (refl, refl)
  client_read-Same eof c = (refl, refl)
  client_read-Same failed c = (refl, refl)

  ended :
      (status : Bool) (q : Request) (c : Client)
      → c.conn.request ≡ some q
      → IsClient t pb h c
      → IsClient t pb h
          (client_write status (record c { conn = record (c.conn) { request = none } }))
  unfolding client_write
  ended true q c e v =
      let f : InFlight t pb h (some q) c.state c.buf c.conn.taken =
        subst (λ o. InFlight t pb h o c.state c.buf c.conn.taken) e v.flight in
      record { room = v.room; sent = f.3; flight = tt }
  ended false q c e v = record { room = v.room; sent = v.sent; flight = tt }

  pub written-IsClient :
      (status : Bool) (c : Client) → IsClient t pb h c → IsClient t pb h (written status c)
  unfolding written
  written-IsClient status c v =
      elim c.conn.request
          as (λ o.
            (c.conn.request ≡ o)
            → IsClient t pb h (elim o [
              | none ↦ c
              | some q ↦
                  client_write status (record c { conn = record (c.conn) { request = none } })
            ])) [ none ↦ λ e. v | some q ↦ λ e. ended status q c e v ]
        refl

  pub written-Same : (status : Bool) (c : Client) → Same c (written status c)
  unfolding written client_write uv_close
  written-Same true c = ground arith
  written-Same false c = ground arith

  -- A client that `client_new` has just made.
  abbrev pub New : Client → Type 0
  New c =
      (length c.buf ≡ buf_size)
      × (c.state ≡ no_state)
      × (c.conn.request ≡ none)
      × (c.conn.taken ≡ [])

  pub New-IsClient : (c : Client) → New c → IsClient t pb h c
  New-IsClient c n = record { room = n.0; sent = rw (n.1, n.3) refl; flight = rw (n.2) tt }

  pub on_start_lem :
      (w : TinyframeResult × t.Writer × Bytes) (takes : Bool) (c : Client)
      → w.2 ≡ (control_start t).2
      → Wrote t buf_size w
      → New c
      → Ensures (λ d. Same c d × IsClient t pb h d) (on_start t w takes c)
  unfolding on_start
  on_start_lem (TinyframeResult.ok, w, out) takes c e g n =
      Ensures-mono (Submitted takes writing_start out c) (λ d. Same c d × IsClient t pb h d) _
        (submit_lem takes writing_start out (t.bytes_wrote w) c (g.1 refl) (omega (arith, n.0)))
        λ d s. (
          (s.same_address, s.same_id),
          submitted t pb h takes writing_start out c d n.0 n.2 tt (rw (n.3) e)
              (inr (rw (n.3, e) refl)) (inl n.3) s,
        )
  on_start_lem (_, w, out) takes c e g n = rw (store_lem c.buf 0 out (omega (arith, n.0))) (
    (refl, refl),
    New-IsClient _ (length_stored c.buf 0 out (omega (arith, n.0)) ∙ n.0, n.1, n.2, n.3),
  )
