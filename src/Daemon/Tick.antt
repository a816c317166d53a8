-- ===== src/Daemon/Tick.antt =====
-- `tick` of examples/daemon_sender_uv.c, with the message that it makes and with others.
use dnswire.Prelude.{
  ℕ, ◌+◌, ◌≤◌, ◌<◌, ◌≡◌, refl, sym, ◌∙◌, Bool, List, [], ◌∷◌, Option, none, some, length, take,
  drop, ◌++◌, replicate, ltb, Bool-cases, inl, inr, arith, length-replicate, true, All,
}
use dnswire.Exec.{ret, Bytes, Ensures, Allows}
use dnswire.Exec.Rules.{Exec-cases, Allows_of_Ensures, Ensures->>=, store_lem, length_stored}
use dnswire.Tinyframe.{Tinyframe}
use dnswire.Dnstap.{
  Message, Policy, Dnstap, Protobuf, IsProtobuf, linked, all_alive, encode_protobuf_size,
  encode_protobuf,
}
use dnswire.Daemon.{
  started, writing_frame, Client, Server, Header, IsHeader, buf_size, make_frame, offer_in,
  offer_all, tick_with, ClientState,
}
use dnswire.Daemon.Valid.{IsFrame, IsClient, IsServer}
use dnswire.Daemon.Offers.{Offered, offer_in_lem}
use dnswire.Daemon.Clients.{Pairwise, Same, Apart-Same, Falling-Same}

module _ (t : Tinyframe) (pb : Protobuf) (h : Header) where
  Offered-Same :
      (takes : ℕ → Bool) (out : Bytes) (c d : Client) → Offered t pb h takes out c d → Same c d
  Offered-Same takes out c d o = from c.state refl
    where
      from : (s : ClientState) → s ≡ c.state → Same c d
      from started e = let w = o.0 (sym e) in (w.same_address, w.same_id)
      from ClientState.no_state e = let q : d ≡ c = o.1 (λ p. cc) in rw q (refl, refl)
      from ClientState.writing_start e = let q : d ≡ c = o.1 (λ p. cc) in rw q (refl, refl)
      from writing_frame e = let q : d ≡ c = o.1 (λ p. cc) in rw q (refl, refl)

  Offered-Pairwise :
      (takes : ℕ → Bool) (out : Bytes) (cs ds : List Client)
      → Pairwise (Offered t pb h takes out) cs ds
      → Pairwise Same cs ds
  Offered-Pairwise takes out [] [] p = tt
  Offered-Pairwise takes out [] (d ∷ ds) p = p
  Offered-Pairwise takes out (c ∷ cs) [] p = p
  Offered-Pairwise takes out (c ∷ cs) (d ∷ ds) p =
      (Offered-Same takes out c d p.0, Offered-Pairwise takes out cs ds p.1)

  -- The loop over the clients.
  offer_all_lem :
      (takes : ℕ → Bool) (out : Bytes) (cs : List Client)
      → All (IsClient t pb h) cs
      → IsFrame t pb h out
      → length out ≤ buf_size
      → Ensures
          (λ ds. Pairwise (Offered t pb h takes out) cs ds × All (IsClient t pb h) ds)
          (offer_all pb h takes out cs)
  unfolding offer_all
  offer_all_lem takes out [] v f k = (tt, tt)
  offer_all_lem takes out (c ∷ cs) v f k =
      Ensures->>= (λ d. Offered t pb h takes out c d × IsClient t pb h d)
        (λ ds. Pairwise (Offered t pb h takes out) (c ∷ cs) ds × All (IsClient t pb h) ds)
        (offer_in pb h c.state (takes c.address) out c) _
        (offer_in_lem t pb h c.state takes out c refl v.0 f k)
        λ d w.
          Ensures->>= (λ ds. Pairwise (Offered t pb h takes out) cs ds × All (IsClient t pb h) ds)
            (λ ds. Pairwise (Offered t pb h takes out) (c ∷ cs) ds × All (IsClient t pb h) ds)
            (offer_all pb h takes out cs) _ (offer_all_lem takes out cs v.1 f k)
            λ ds z. ((w.0, z.0), (w.1, z.1))

  -- The frame is made without an access out of bounds, and is as long as the array.
  make_frame_lem :
      (d : Dnstap) (m : Option (Message × Option Policy))
      → IsHeader h
      → IsProtobuf pb
      → linked d ≡ ret m
      → all_alive d.dnstap m ≡ true
      → (frame : Bytes) × (make_frame pb h d ≡ ret frame)
        × (length frame ≡ h.size + pb.get_packed_size d.dnstap m)
  unfolding make_frame encode_protobuf_size encode_protobuf
  make_frame_lem d m hl pl em alive = (
    h.set (take h.size f ++ (p ++ drop (h.size + length p) f)) n,
    rw (em, alive, store_lem f h.size p fits) refl,
    hl.set_length _ n ∙ length_stored f h.size p fits ∙ length-replicate (h.size + n) 0,
  )
    where
      n : ℕ
      n = pb.get_packed_size d.dnstap m

      p : Bytes
      p = pb.pack d.dnstap m

      f : Bytes
      f = replicate (h.size + n) 0

      fits : h.size + length p ≤ length f
      fits = omega (arith, pl.packed_size d.dnstap m, length-replicate {A = ℕ} (h.size + n) 0)

  -- What a tick leaves: it exits if the frame is larger than the buffers, and else every client is
  -- offered the frame, and the server is well formed.
  abbrev pub Ticked : Dnstap → ℕ → (ℕ → Bool) → Server → Option Server → Type 0
  Ticked d n takes s none = buf_size < n
  Ticked d n takes s (some s') =
      (n ≤ buf_size)
      × ((frame : Bytes) × (make_frame pb h d ≡ ret frame)
          × (length frame ≡ n)
          × Pairwise (Offered t pb h takes frame) s.clients s'.clients)
      × IsServer t pb h s'

  -- On a well-formed server, with a message without dangling pointers, what follows the call of
  -- `create_dnstap` in `tick` returns; the message of `create_dnstap` is none of these.
  pub tick_with_lem :
      (d : Dnstap) (m : Option (Message × Option Policy)) (takes : ℕ → Bool) (s : Server)
      → IsHeader h
      → IsProtobuf pb
      → linked d ≡ ret m
      → all_alive d.dnstap m ≡ true
      → IsServer t pb h s
      → Ensures
          (Ticked d (h.size + pb.get_packed_size d.dnstap m) takes s)
          (tick_with pb h d takes s)
  unfolding tick_with
  tick_with_lem d m takes s hl pl em alive v =
      let (frame, ef, lf) = make_frame_lem d m hl pl em alive in
      rw ef (elim (Bool-cases (ltb buf_size (length frame))) [
        | inl e ↦ rw e (ground arith)
        | inr e ↦ rw e (
            Ensures->>=
              (λ ds. Pairwise (Offered t pb h takes frame) s.clients ds × All (IsClient t pb h) ds)
              (Ticked d (h.size + pb.get_packed_size d.dnstap m) takes s)
              (offer_all pb h takes frame s.clients) _
              (offer_all_lem takes frame s.clients v.all (d, ef) (ground arith))
              λ ds z.
                let same = Offered-Pairwise takes frame s.clients ds z.0 in
                (
                  ground arith,
                  (frame, ef, lf, z.0),
                  record {
                    all = z.1;
                    apart = Apart-Same s.clients ds same v.apart;
                    falling = Falling-Same s.client_id s.clients ds same v.falling;
                  },
                ))
      ])

  abbrev pub Kept : Option Server → Type 0
  Kept none = Unit
  Kept (some s) = IsServer t pb h s

  Ticked-Kept :
      (d : Dnstap) (m : Option (Message × Option Policy)) (takes : ℕ → Bool) (s : Server)
      (o : Option Server)
      → Ticked d (h.size + pb.get_packed_size d.dnstap m) takes s o
      → Kept o
  Ticked-Kept d m takes s none w = tt
  Ticked-Kept d m takes s (some s') w = w.2

  -- Whatever the message, if the rest of `tick` returns, the server is well formed.
  pub tick_with-Kept :
      (d : Dnstap) (takes : ℕ → Bool) (s : Server)
      → IsHeader h
      → IsProtobuf pb
      → IsServer t pb h s
      → Allows Kept (tick_with pb h d takes s)
  unfolding tick_with make_frame encode_protobuf_size encode_protobuf
  tick_with-Kept d takes s hl pl v = elim (Exec-cases (linked d)) [
    | inr (f, e) ↦ rw e tt
    | inl (m, e) ↦ elim (Bool-cases (all_alive d.dnstap m)) [
      | inr a ↦ rw (e, a) tt
      | inl a ↦
          Allows_of_Ensures (Ticked d (h.size + pb.get_packed_size d.dnstap m) takes s) Kept _
            (tick_with_lem d m takes s hl pl e a v) (Ticked-Kept d m takes s)
    ]
  ]
