-- ===== src/Writer/Outcome.antt =====
-- What a call of `dnswire_writer_write` of src/writer.c leaves.
use mathlib.Core.List.{append-nil}
use dnswire.Prelude.{
  ℕ, ◌+◌, ◌≡◌, ◌≢◌, ◌⊎◌, refl, sym, subst, ap, ◌∙◌, [], true, false, inl, some, length, drop, ◌++◌,
  arith,
}
use dnswire.Exec.{Bytes}
use dnswire.Result.{error}
use dnswire.Alloc.{Allocator, IsAllocator}
use dnswire.Io.{Io}
use dnswire.Buffer.Valid.{IsInput, unread, unsent}
use dnswire.Tinyframe.{Tinyframe, IsTinyframe}
use dnswire.Dnstap.{Protobuf, IsProtobuf}
use dnswire.Encoder.Loop.Ends.{Says, Says-mono}
use dnswire.Writer.{Writer, WriterState, Reply}
use dnswire.Writer.Valid.{stops}
use dnswire.Writer.Duplex.{IsPeer, IsDuplex}
use dnswire.Writer.Replies.{Dropped}
use dnswire.Writer.Descriptor.{Taken, Received, Moved}
use dnswire.Writer.Rest.{IsSender}
use dnswire.Writer.Encoding.{Encoding, Encoding-IsSender, made}

-- How many of the bytes `old`, which were pending, and `out`, which the encoder made, are taken: by
-- one write, or by one that took all of `old` and another of `out`.
pub data Accepts (io io' : Io) (old out : Bytes) (k : ℕ) : Type 0 where
  one : Taken io (old ++ out) k → Accepts io io' old out k
  two :
      (old ≡ []) ⊎ (io.write old ≡ some (length old))
      → (j : ℕ) → k ≡ length old + j
      → Taken io' out j
      → Accepts io io' old out k

module _ (t : Tinyframe) where
  -- What a call leaves: a well-formed writer unless the result is an error; what is pending are the
  -- bytes that were, followed by those of at most one call of the encoder, without those that the
  -- descriptor has taken from the front; and what is unread are the bytes that were, followed by
  -- those that came in, less a part from the front that was decoded.
  pub record Wrote (pb : Protobuf) (io io' : Io) (w : Writer t) (x : Reply t) : Type 0 where
    pub valid : x.0 ≢ error → IsDuplex t x.1
    pub sent :
        (out : Bytes) × (k : ℕ) × (unsent x.1.output ≡ drop k (unsent w.output ++ out))
        × Accepts io io' (unsent w.output) out k
        × Says t pb x.0 w.encoder x.1.encoder out
    pub read :
        (bs : Bytes) × (k : ℕ) × (unread x.1.input ≡ drop k (unread w.input ++ bs))
        × Received io w.input bs
        × Dropped t x k

  -- The state before a step does not matter to what it moves.
  pub of_state :
      (io : Io) (w : Writer t) (s : WriterState) (all : Bytes) (x : Reply t)
      → Moved t io (record w { state = s }) all x
      → Moved t io w all x
  of_state io w s all x m = record {
    valid = m.valid;
    same_encoder = m.same_encoder;
    sent = m.sent;
    read = m.read;
  }

  -- The cases that do not encode.
  pub of_Moved :
      (pb : Protobuf) (io io' : Io) (w : Writer t) (x : Reply t)
      → Moved t io w (unsent w.output) x
      → Wrote pb io io' w x
  of_Moved pb io io' w x m =
      let e = sym (append-nil (unsent w.output)) in
      let (k, u, n) = m.sent in
      record {
        valid = m.valid;
        sent = (
          [],
          k,
          subst (λ y. unsent x.1.output ≡ drop k y) e u,
          one (subst (λ y. Taken io y k) e n),
          inl (refl, inl m.same_encoder),
        );
        read = m.read;
      }

module _ (t : Tinyframe) (pb : Protobuf) (al : Allocator) (tl : IsTinyframe t) (pl : IsProtobuf pb)
    (laws : IsAllocator al) where
  pub IsPeer-IsSender : {w : Writer t} → IsPeer t w → IsSender t w
  IsPeer-IsSender v = record { output = v.output; present = v.present; linked = v.linked }

  pub Encoding-IsPeer :
      (w : Writer t) (x : Reply t) → IsPeer t w → Encoding t pb al tl pl laws w x → IsPeer t x.1
  Encoding-IsPeer w x v g =
      let s = Encoding-IsSender t pb al tl pl laws w x (IsPeer-IsSender v) g in
      record {
        output = s.output;
        present = s.present;
        linked = s.linked;
        input = subst (λ y. y.bidirectional ≡ true → IsInput y.input) (sym g.same) v.input;
      }

  -- The cases that encode, and then write and read.
  pub after-Encoding :
      (io io' : Io) (w : Writer t) (x y : Reply t)
      → Encoding t pb al tl pl laws w x
      → (x.0 ≡ error → y.0 ≡ error)
      → Moved t io x.1 (unsent x.1.output) y
      → Wrote t pb io io' w y
  after-Encoding io io' w x y g er m =
      let (out, q, n) = made t pb al tl pl laws w x g in
      let (k, u, a) = m.sent in
      record {
        valid = m.valid;
        sent = (
          out,
          k,
          u ∙ ap (λ b. drop k b) q,
          one (subst (λ b. Taken io b k) q a),
          rw (m.same_encoder) (Says-mono t pb x.0 y.0 _ _ out er n),
        );
        read =
            subst
              (λ z.
                (bs : Bytes) × (k : ℕ) × (unread y.1.input ≡ drop k (unread z.input ++ bs))
                × Received io z.input bs
                × Dropped t y k)
              g.same m.read;
      }

  -- A call that only encodes leaves the state as it is.
  pub unmoved :
      (io : Io) (w : Writer t) (x : Reply t)
      → IsDuplex t w
      → stops w.state ≡ false
      → Encoding t pb al tl pl laws w x
      → (x.0 ≢ error → x.1.output.left ≡ 0)
      → Moved t io x.1 (unsent x.1.output) x
  unmoved io w x v s g z = record {
    valid = λ h. subst (IsDuplex t) (sym g.same) (record {
      basic = subst (IsPeer t) g.same (Encoding-IsPeer w x v.basic g);
      waiting = v.waiting;
      awaiting = v.awaiting;
      quiet = λ i. z h;
      stopped = λ i. absurd (ground arith);
    });
    same_encoder = refl;
    sent = (0, refl, inl refl);
    read = ([], 0, sym (append-nil (unread x.1.input)), inl refl, inl refl);
  }
