-- ===== src/Writer/Ending.antt =====
-- `dnswire_writer_write` of src/writer.c after `dnswire_writer_stop`: the STOP is encoded and written.
use mathlib.Core.List.{append-nil}
use dnswire.Prelude.{
  ℕ, ◌+◌, ◌-◌, ◌≡◌, ◌≢◌, ◌⊎◌, refl, sym, subst, ap, ◌∙◌, [], inl, inr, some, length, drop, take,
  drop-drop, drop-append, ◌++◌, arith,
}
use dnswire.Exec.{Bytes, contents, Ensures}
use dnswire.Exec.Rules.{Ensures->>=, Ensures-mono}
use dnswire.Result.{error, endofdata}
use dnswire.Alloc.{Allocator, IsAllocator}
use dnswire.Io.{Io, IsIo}
use dnswire.Buffer.{Buffer}
use dnswire.Buffer.Valid.{unread, unsent}
use dnswire.Tinyframe.{Tinyframe, IsTinyframe}
use dnswire.Dnstap.{Protobuf, IsProtobuf}
use dnswire.Encoder.{control_stop}
use dnswire.Encoder.Loop.Ends.{Says, Says-mono}
use dnswire.Writer.{Writer, WriterState, Reply, writer_encoding}
use dnswire.Writer.Write.{write_writing_stop}
use dnswire.Writer.Duplex.{IsPeer, IsDuplex}
use dnswire.Writer.Descriptor.{Taken, Flushed}
use dnswire.Writer.Write.{write_encoding_stop}
use dnswire.Writer.Encoding.{Encoding, writer_encoding-Over, made}
use dnswire.Writer.Sending.{write_writing_stop_lem}
use dnswire.Writer.Outcome.{one, two, Wrote, IsPeer-IsSender, Encoding-IsPeer}

module _ (t : Tinyframe) (pb : Protobuf) (al : Allocator) (tl : IsTinyframe t) (pl : IsProtobuf pb)
    (laws : IsAllocator al) where
  -- The STOP is encoded behind what is pending, and written.
  pub record Ended (io : Io) (w : Writer t) (x : Reply t) : Type 0 where
    pub valid : x.0 ≢ error → IsDuplex t x.1
    pub same_input : x.1.input ≡ w.input
    pub sent :
        (out : Bytes) × (k : ℕ) × (unsent x.1.output ≡ drop k (unsent w.output ++ out))
        × Taken io (unsent w.output ++ out) k
        × Says t pb x.0 w.encoder x.1.encoder out

  ended :
      (io : Io) (w : Writer t) (x y : Reply t)
      → Encoding t pb al tl pl laws w x
      → (x.0 ≡ error → y.0 ≡ error)
      → Flushed t io x.1 (unsent x.1.output) y
      → Ended io w y
  ended io w x y g er f =
      let (out, q, n) = made t pb al tl pl laws w x g in
      let (k, u, a) = f.sent in
      record {
        valid = f.valid;
        same_input = f.same_input ∙ ap (λ z. z.input) g.same;
        sent = (
          out,
          k,
          u ∙ ap (λ b. drop k b) q,
          subst (λ b. Taken io b k) q a,
          rw (f.same_encoder) (Says-mono t pb x.0 y.0 _ _ out er n),
        );
      }

  pub write_encoding_stop_lem :
      (io : Io) (il : IsIo io) (w : Writer t)
      → IsPeer t w
      → w.encoder.state ≡ control_stop
      → w.output.left ≡ 0
      → Ensures (Ended io w) (write_encoding_stop t pb al io w)
  unfolding write_encoding_stop
  write_encoding_stop_lem io il w v s z =
      Ensures->>= (λ x. Encoding t pb al tl pl laws w x × ((x.0 ≡ endofdata) ⊎ (x.0 ≡ error)))
        (Ended io w) (writer_encoding t pb al w) _
        (writer_encoding-Over t pb al tl pl laws w (IsPeer-IsSender t pb al tl pl laws v) z s)
        λ x g.
          let p : IsPeer t x.1 = Encoding-IsPeer t pb al tl pl laws w x v g.0 in
          let y = record (x.1) { state = WriterState.writing_stop } in
          elim g.1 [
            | inl f ↦ rw f (
                Ensures-mono (Flushed t io y (unsent x.1.output)) (Ended io w)
                  (write_writing_stop t pb al io y)
                  (write_writing_stop_lem t pb al tl laws io il y (ground (arith, p)) refl)
                  λ q h.
                    ended io w x q g.0 (λ z. cc (f, z))
                      (record {
                        valid = h.valid;
                        same_encoder = h.same_encoder;
                        same_input = h.same_input;
                        sent = h.sent;
                      }))
            | inr f ↦ rw f (
                ended io w x (error, x.1) g.0 (λ z. refl)
                  (record {
                    valid = λ h. absurd (h refl);
                    same_encoder = refl;
                    same_input = refl;
                    sent = (0, refl, inl refl);
                  }))
          ]

  pub of_Ended : (io io' : Io) (w : Writer t) (x : Reply t) → Ended io w x → Wrote t pb io io' w x
  of_Ended io io' w x h =
      let (out, k, u, a, n) = h.sent in
      record {
        valid = h.valid;
        sent = (out, k, u, one a, n);
        read = ([], 0, rw (h.same_input) (sym (append-nil (unread w.input))), inl refl, inl refl);
      }

  pub unsent_empty : (b : Buffer) → b.left ≡ 0 → unsent b ≡ []
  unsent_empty b z = ap (λ n. take n (drop (b.at - b.left) (contents b.buf))) z

  drop-length_add : (xs ys : Bytes) (k : ℕ) → drop (length xs + k) (xs ++ ys) ≡ drop k ys
  drop-length_add xs ys k =
      sym (drop-drop k (length xs) (xs ++ ys)) ∙ ap (λ z. drop k z) (drop-append xs ys)

  -- What was pending is gone, and then the STOP goes out.
  pub in_two :
      (io io' : Io) (w y : Writer t) (x : Reply t)
      → (unsent w.output ≡ []) ⊎ (io.write (unsent w.output) ≡ some (length (unsent w.output)))
      → unsent y.output ≡ []
      → y.input ≡ w.input
      → y.encoder ≡ w.encoder
      → Ended io' y x
      → Wrote t pb io io' w x
  in_two io io' w y x a e i f h =
      let (out, j, u, b, n) = h.sent in
      record {
        valid = h.valid;
        sent = (
          out,
          length (unsent w.output) + j,
          u ∙ ap (λ z. drop j (z ++ out)) e ∙ sym (drop-length_add (unsent w.output) out j),
          two a j refl (subst (λ z. Taken io' (z ++ out) j) e b),
          subst (λ z. Says t pb x.0 z x.1.encoder out) f n,
        );
        read =
            ([], 0, rw (h.same_input, i) (sym (append-nil (unread w.input))), inl refl, inl refl);
      }
