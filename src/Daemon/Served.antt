-- ===== src/Daemon/Served.antt =====
-- A whole life of the server of examples/daemon_sender_uv.c: the callbacks, in any order.
use dnswire.Prelude.{
  ℕ, ◌+◌, ◌<◌, ◌≡◌, ◌⊎◌, refl, subst, Bool, true, false, ◌∷◌, Option, none, some, length, inl, inr,
  arith,
}
use dnswire.Prelude.Size.{size_mod, add_size_exact}
use mathlib.Core.List.{Mem}
use dnswire.Exec.{ret, Ensures, Allows}
use dnswire.Exec.Rules.{Ensures->>=}
use dnswire.Tinyframe.{Tinyframe, IsTinyframe}
use dnswire.Dnstap.{Dnstap, Protobuf, IsProtobuf}
use dnswire.Daemon.{
  Client, Server, Block, Nread, Header, IsHeader, buf_size, initial_server, client_new,
  client_close, at_client, uv_close, client_read, written, control_start, send_start,
  on_new_connection, tick_with,
}
use dnswire.Daemon.Valid.{IsFresh, IsClient, IsServer}
use dnswire.Daemon.Clients.{
  Same, Apart-Same, Falling-Same, at_client-Same, at_client-All, client_close_lem, without-All,
  without-Apart, without-Falling,
}
use dnswire.Daemon.Tick.{Kept, tick_with-Kept}
use dnswire.Daemon.Callbacks.{
  uv_close-IsClient, client_read-IsClient, client_read-Same, written-IsClient, written-Same,
  New-IsClient, on_start_lem,
}

module _ (t : Tinyframe) (pb : Protobuf) (h : Header) where
  -- A new client at the front of the list.
  joined :
      (m : Block) (s : Server) (d : Client)
      → IsServer t pb h s
      → IsFresh m.address s.clients
      → s.client_id + 1 < size_mod
      → Same (client_new m s).0 d
      → IsClient t pb h d
      → IsServer t pb h (record ((client_new m s).1) { clients = d ∷ s.clients })
  unfolding client_new
  joined m s d v fr k e w = record {
    all = (w, v.all);
    apart = (rw (e.0) fr, v.apart);
    falling = rw (add_size_exact s.client_id 1 k, e.1) (omega arith, v.falling);
  }

  -- `malloc` gives memory of the size of a `struct client` that no client has.
  abbrev pub Allocated : Option Block → Server → Type 0
  Allocated none s = Unit
  Allocated (some m) s = IsFresh m.address s.clients × (length m.buf ≡ buf_size)

  -- After `on_new_connection` there is no client more, or one in front of the old ones.
  abbrev pub Joined : Server → Server → Type 0
  Joined s s' = (s'.clients ≡ s.clients) ⊎ ((d : Client) × (s'.clients ≡ d ∷ s.clients))

  pub on_new_connection_lem :
      (status : Bool) (m : Option Block) (accepted takes : Bool) (s : Server)
      → IsTinyframe t
      → IsServer t pb h s
      → Allocated m s
      → s.client_id + 1 < size_mod
      → Ensures
          (λ s'. IsServer t pb h s' × Joined s s')
          (on_new_connection t status m accepted takes s)
  unfolding on_new_connection client_new control_start
  on_new_connection_lem false m accepted takes s tl v g k = (v, inl refl)
  on_new_connection_lem true none accepted takes s tl v g k = (v, inl refl)
  on_new_connection_lem true (some m) false takes s tl v g k = (
    joined m s (uv_close (client_new m s).0) v g.0 k (refl, refl)
        (uv_close-IsClient t pb h _
          (New-IsClient t pb h (client_new m s).0 (g.1, refl, refl, refl))),
    inr (uv_close (client_new m s).0, refl),
  )
  on_new_connection_lem true (some m) true takes s tl v g k =
      Ensures->>= (λ d. Same (client_new m s).0 d × IsClient t pb h d)
        (λ s'. IsServer t pb h s' × Joined s s') (send_start t takes (client_new m s).0) _
        (on_start_lem t pb h (control_start t) takes _ refl (tl.start_wrote _ _ _)
          (g.1, refl, refl, refl))
        λ d w. (joined m s d v g.0 k w.0 w.1, inr (d, refl))

  -- The servers that callbacks lead to: libuv calls them in any order, `uv_write` takes or refuses
  -- each request, and closes a connection when no request is in flight; and `tick` may return, for
  -- any message in the place of the one that `create_dnstap` makes.
  pub data Served : Server → Type 0 where
    launched : Served initial_server
    connected :
        (status : Bool) (m : Option Block) (accepted takes : Bool) {s s' : Server}
        → Served s
        → Allocated m s
        → s.client_id + 1 < size_mod
        → on_new_connection t status m accepted takes s ≡ ret s'
        → Served s'
    was_read :
        (a : ℕ) (n : Nread) {s : Server}
        → Served s
        → Served (record s { clients = at_client a (client_read n) s.clients })
    was_written :
        (a : ℕ) (status : Bool) {s : Server}
        → Served s
        → Served (record s { clients = at_client a (written status) s.clients })
    closed :
        (c : Client) {s : Server}
        → Served s
        → Mem c s.clients
        → 0 < c.conn.closes
        → c.conn.request ≡ none
        → Served (client_close c.address s)
    ticked :
        (d : Dnstap) (takes : ℕ → Bool) {s s' : Server}
        → Served s
        → tick_with pb h d takes s ≡ ret (some s')
        → Served s'

  called :
      (a : ℕ) (f : Client → Client) (s : Server)
      → ((c : Client) → Same c (f c))
      → ((c : Client) → IsClient t pb h c → IsClient t pb h (f c))
      → IsServer t pb h s
      → IsServer t pb h (record s { clients = at_client a f s.clients })
  called a f s same keeps v = record {
    all = at_client-All (IsClient t pb h) a f s.clients keeps v.all;
    apart = Apart-Same s.clients _ (at_client-Same a f s.clients same) v.apart;
    falling = Falling-Same s.client_id s.clients _ (at_client-Same a f s.clients same) v.falling;
  }

  -- For libraries with the properties in `IsTinyframe` and `IsProtobuf`, a `tinyframe_set_header`
  -- that keeps the length, blocks from `malloc` of the right size that are in no client, and fewer
  -- than 2^64 - 1 connections: every server that the callbacks lead to, in any order and whether
  -- or not `uv_write` takes a request, is well formed; a `tick` counts where it returns, with any
  -- message in the place of the one of `create_dnstap`. No two clients share an address, and their
  -- ids fall along the list; a client has been sent nothing, or the control start and then whole
  -- frames only, and no frame before the state `writing_start` was left; while a request is in
  -- flight the client is in a state that waits for it, and the bytes that libuv is still to write
  -- are those that it was given.
  pub Served-IsServer :
      (s : Server) → IsTinyframe t → IsProtobuf pb → IsHeader h → Served s → IsServer t pb h s
  unfolding client_close
  Served-IsServer _ tl pl hl launched = record { all = tt; apart = tt; falling = tt }
  Served-IsServer _ tl pl hl (connected status m accepted takes {s} {s'} q g k e) =
      (subst (Ensures (λ x. IsServer t pb h x × Joined s x)) e
        (on_new_connection_lem status m accepted takes s tl (Served-IsServer s tl pl hl q) g k)).0
  Served-IsServer _ tl pl hl (was_read a n {s} q) =
      called a (client_read n) s (client_read-Same t pb h n) (client_read-IsClient t pb h n)
        (Served-IsServer s tl pl hl q)
  Served-IsServer _ tl pl hl (was_written a status {s} q) =
      called a (written status) s (written-Same t pb h status) (written-IsClient t pb h status)
        (Served-IsServer s tl pl hl q)
  Served-IsServer _ tl pl hl (closed c {s} q m n r) =
      let v = Served-IsServer s tl pl hl q in
      let e = client_close_lem c.address s v.apart in
      record {
        all = rw e (without-All (IsClient t pb h) c.address s.clients v.all);
        apart = rw e (without-Apart c.address s.clients v.apart);
        falling = rw e (without-Falling s.client_id c.address s.clients v.falling);
      }
  Served-IsServer _ tl pl hl (ticked d takes {s} {s'} q e) =
      subst (Allows (Kept t pb h)) e
        (tick_with-Kept t pb h d takes s hl pl (Served-IsServer s tl pl hl q))
