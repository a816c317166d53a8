-- ===== src/Daemon/Offers.antt =====
-- Requests of the server of examples/daemon_sender_uv.c: the control start and the frames.
use dnswire.Prelude.{
  ℕ, ◌+◌, ◌≤◌, ◌≡◌, ◌≢◌, refl, Option, sym, subst, ◌∙◌, Bool, true, false, List, [], ◌∷◌, ◌++◌,
  none, some, length, take, drop, arith, take-append,
}
use dnswire.Exec.{Bytes, Ensures}
use dnswire.Exec.Rules.{slice_lem, store_lem, length_stored, Ensures-mono}
use dnswire.Tinyframe.{Tinyframe}
use dnswire.Dnstap.{Protobuf}
use dnswire.Daemon.{
  ClientState, no_state, writing_start, started, writing_frame, Request, Client, Header, buf_size,
  submit, offer_in,
}
use dnswire.Daemon.Valid.{IsFrame, Stream, Busy, InFlight, Sent, IsClient}

-- The bytes at the start of the buffer after a store there.
stored_front :
    (p out : Bytes) → take (length out) (take 0 p ++ (out ++ drop (0 + length out) p)) ≡ out
stored_front p out = take-append out (drop (0 + length out) p)

-- What a client is after it was sent `out`, if `uv_write` takes it.
pub record Submitted (takes : Bool) (state : ClientState) (out : Bytes) (c d : Client)
    : Type 0 where
  pub same_address : d.address ≡ c.address
  pub same_id : d.id ≡ c.id
  pub room : length d.buf ≡ length c.buf
  pub in_state : d.state ≡ state
  pub at_front : take (length out) d.buf ≡ out
  pub fits : length out ≤ length d.buf
  pub same_closes : d.conn.closes ≡ c.conn.closes
  pub request : takes ≡ true → d.conn.request ≡ some (record { len = length out; bytes = out })
  pub taken : takes ≡ true → d.conn.taken ≡ out ∷ c.conn.taken
  pub refused : takes ≡ false → (d.conn.request ≡ c.conn.request) × (d.conn.taken ≡ c.conn.taken)

-- The request is what was stored: the right length is given, and the buffer is large enough.
sent_front :
    (takes : Bool) (state : ClientState) (out : Bytes) (c : Client)
    → length out ≤ length c.buf
    → Ensures (Submitted takes state out c) (submit takes state out (length out) c)
unfolding submit
sent_front false state out c h =
    let b = take 0 c.buf ++ (out ++ drop (0 + length out) c.buf) in
    let lb : length b ≡ length c.buf = length_stored c.buf 0 out (omega arith) in
    rw (store_lem c.buf 0 out (omega arith))
      (rw (slice_lem b 0 (length out) (omega arith)) (ground (arith, stored_front c.buf out)))
sent_front true state out c h =
    let b = take 0 c.buf ++ (out ++ drop (0 + length out) c.buf) in
    let lb : length b ≡ length c.buf = length_stored c.buf 0 out (omega arith) in
    rw (store_lem c.buf 0 out (omega arith)) (
      rw (slice_lem b 0 (length out) (omega arith))
        (rw (stored_front c.buf out) (ground (arith, stored_front c.buf out))))

pub submit_lem :
    (takes : Bool) (state : ClientState) (out : Bytes) (n : ℕ) (c : Client)
    → n ≡ length out
    → length out ≤ length c.buf
    → Ensures (Submitted takes state out c) (submit takes state out n c)
submit_lem takes state out n c e h =
    subst (λ k. Ensures (Submitted takes state out c) (submit takes state out k c)) (sym e)
      (sent_front takes state out c h)

module _ (t : Tinyframe) (pb : Protobuf) (h : Header) where
  -- A frame behind a stream is a stream again.
  Stream-frame :
      (ws : List Bytes) (w : Bytes) → Stream t pb h ws → IsFrame t pb h w → Stream t pb h (w ∷ ws)
  Stream-frame [] w s f = absurd s
  Stream-frame (v ∷ ws) w s f = (f, s)

  no_request :
      (o : Option Request) (s : ClientState) (b : Bytes) (ws : List Bytes)
      → InFlight t pb h o s b ws
      → (Busy s → ⊥)
      → o ≡ none
  no_request none s b ws f n = refl
  no_request (some q) s b ws f n = absurd (n f.0)

  -- A client that no request was in flight for, after it was sent `out` behind a stream.
  pub submitted :
      (takes : Bool) (state : ClientState) (out : Bytes) (c d : Client)
      → length c.buf ≡ buf_size
      → c.conn.request ≡ none
      → Busy state
      → Stream t pb h (out ∷ c.conn.taken)
      → Sent t pb h state (out ∷ c.conn.taken)
      → Sent t pb h state c.conn.taken
      → Submitted takes state out c d
      → IsClient t pb h d
  submitted true state out c d l e b st s s' w = record {
    room = w.room ∙ l;
    sent = rw (w.taken refl, w.in_state) s;
    flight = rw (w.request refl, w.in_state, w.taken refl) (b, w.fits, w.at_front, st);
  }
  submitted false state out c d l e b st s s' w = record {
    room = w.room ∙ l;
    sent = rw ((w.refused refl).1, w.in_state) s';
    flight = rw ((w.refused refl).0, e) tt;
  }

  -- What the body of the loop makes of a client: one that was sent the last request gets the frame,
  -- and no other is touched.
  abbrev pub Offered : (ℕ → Bool) → Bytes → Client → Client → Type 0
  Offered takes out c d =
      (c.state ≡ started → Submitted (takes c.address) writing_frame out c d)
      × (c.state ≢ started → d ≡ c)

  pub offer_in_lem :
      (s : ClientState) (takes : ℕ → Bool) (out : Bytes) (c : Client)
      → s ≡ c.state
      → IsClient t pb h c
      → IsFrame t pb h out
      → length out ≤ buf_size
      → Ensures
          (λ d. Offered takes out c d × IsClient t pb h d)
          (offer_in pb h s (takes c.address) out c)
  unfolding offer_in
  offer_in_lem started takes out c e v f k =
      let st : Stream t pb h c.conn.taken =
        subst (λ s. Sent t pb h s c.conn.taken) (sym e) v.sent in
      let none_left : c.conn.request ≡ none =
        no_request c.conn.request c.state c.buf c.conn.taken v.flight
          (subst (λ s. Busy s → ⊥) e (λ b. b)) in
      Ensures-mono (Submitted (takes c.address) writing_frame out c) _ _
        (submit_lem (takes c.address) writing_frame out (length out) c refl (omega (arith, v.room)))
        λ d w. (
          (λ _. w, λ n. absurd (n (sym e))),
          submitted (takes c.address) writing_frame out c d v.room none_left tt
              (Stream-frame c.conn.taken out st f) (Stream-frame c.conn.taken out st f) st w,
        )
  offer_in_lem no_state takes out c e v f k = ((λ p. cc, λ n. refl), v)
  offer_in_lem writing_start takes out c e v f k = ((λ p. cc, λ n. refl), v)
  offer_in_lem writing_frame takes out c e v f k = ((λ p. cc, λ n. refl), v)
