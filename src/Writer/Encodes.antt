-- ===== src/Writer/Encodes.antt =====
-- The cases of `dnswire_writer_write` of src/writer.c that encode.
use dnswire.Prelude.{
  ◌≡◌, refl, ap, ◌∙◌, true, false, not, ◌&&◌, inl, inr, ◌==◌, Bool-cases, if◌then◌else◌, arith,
}
use dnswire.Exec.{Exec, ret, ◌>>=◌, Ensures}
use dnswire.Exec.Rules.{Ensures->>=, Ensures-mono}
use dnswire.Result.{Result}
use dnswire.Alloc.{Allocator, IsAllocator}
use dnswire.Io.{Io, IsIo}
use dnswire.Buffer.Valid.{unsent}
use dnswire.Tinyframe.{Tinyframe, IsTinyframe}
use dnswire.Dnstap.{Protobuf, IsProtobuf}
use dnswire.Writer.{Writer, WriterState, Reply, writer_encoding}
use dnswire.Writer.Write.{write_writing_ready, write_writing}
use dnswire.Writer.Valid.{stops}
use dnswire.Writer.Duplex.{IsPeer, IsDuplex}
use dnswire.Writer.Descriptor.{Flushed, of_Flushed, Moved}
use dnswire.Writer.Pop.{is_error}
use dnswire.Writer.Write.{write_encoding_ready, write_encoding}
use dnswire.Writer.Encoding.{Encoding, writer_encoding_lem, not_error}
use dnswire.Writer.Sending.{write_writing_lem, write_writing_ready_lem}
use dnswire.Writer.Outcome.{
  Wrote, of_state, IsPeer-IsSender, Encoding-IsPeer, after-Encoding, unmoved,
}

module _ (t : Tinyframe) (pb : Protobuf) (al : Allocator) (tl : IsTinyframe t) (pl : IsProtobuf pb)
    (laws : IsAllocator al) where
  module _ (io io' : Io) (il : IsIo io) where
    -- After `_encoding`, what it made is written, unless it failed or made nothing.
    encoded_lem :
        (w : Writer t) (next : Result → Writer t → Exec (Reply t))
        → IsDuplex t w
        → stops w.state ≡ false
        → w.output.left ≡ 0
        → ((x : Reply t)
            → Encoding t pb al tl pl laws w x
            → Ensures
                (Moved t io x.1 (unsent x.1.output))
                (next x.0 (record (x.1) { state = WriterState.writing })))
        → Ensures (Wrote t pb io io' w) (
            writer_encoding t pb al w >>= λ x.
            if not (is_error x.0) && not (x.1.output.left == 0)
            then next x.0 (record (x.1) { state = WriterState.writing })
            else ret (x.0, x.1))
    encoded_lem w next v s z k =
        Ensures->>= (Encoding t pb al tl pl laws w) (Wrote t pb io io' w)
          (writer_encoding t pb al w) _
          (writer_encoding_lem t pb al tl pl laws w (IsPeer-IsSender t pb al tl pl laws v.basic) z)
          λ x g. elim (Bool-cases (not (is_error x.0) && not (x.1.output.left == 0))) [
            | inl f ↦ rw f (
                Ensures-mono (Moved t io x.1 (unsent x.1.output)) (Wrote t pb io io' w) _ (k x g)
                  λ y m.
                    after-Encoding t pb al tl pl laws io io' w x y g (λ q. absurd (ground arith)) m)
            | inr f ↦ rw f (
                after-Encoding t pb al tl pl laws io io' w x x g (λ q. q)
                  (unmoved t pb al tl pl laws io w x v s g λ h.
                    let ne : is_error x.0 ≡ false = not_error t pb al tl pl laws x.0 h in
                    ground arith))
          ]

    pub write_encoding_lem :
        (w : Writer t)
        → IsDuplex t w
        → w.state ≡ WriterState.encoding
        → Ensures (Wrote t pb io io' w) (write_encoding t pb al io w)
    unfolding write_encoding
    write_encoding_lem w v s =
        encoded_lem w (write_writing t pb al io) v (rw s refl) (v.quiet (rw s refl)) λ x g.
          let y = record (x.1) { state = WriterState.writing } in
          let p : IsPeer t x.1 = Encoding-IsPeer t pb al tl pl laws w x v.basic g in
          Ensures-mono (Flushed t io y (unsent x.1.output)) (Moved t io x.1 (unsent x.1.output)) _
            (write_writing_lem t pb al tl laws io il y (ground (arith, p)) x.0 refl)
            λ z f.
              of_state t io x.1 WriterState.writing (unsent x.1.output) z
                (of_Flushed t io y (unsent x.1.output) z f)

    pub write_encoding_ready_lem :
        (w : Writer t)
        → IsDuplex t w
        → w.state ≡ WriterState.encoding_ready
        → Ensures (Wrote t pb io io' w) (write_encoding_ready t pb al io w)
    unfolding write_encoding_ready
    write_encoding_ready_lem w v s =
        encoded_lem w (write_writing_ready t pb al io) v (rw s refl) (v.quiet (rw s refl)) λ x g.
          let y = record (x.1) { state = WriterState.writing } in
          let p : IsPeer t x.1 = Encoding-IsPeer t pb al tl pl laws w x v.basic g in
          let bi : x.1.bidirectional ≡ true =
            ap (λ q. q.bidirectional) g.same ∙ v.awaiting (rw s refl) in
          Ensures-mono (Moved t io y (unsent x.1.output)) (Moved t io x.1 (unsent x.1.output)) _
            (write_writing_ready_lem t pb al tl laws io il y (ground (arith, p)) x.0 bi (inr refl))
            λ z m. of_state t io x.1 WriterState.writing (unsent x.1.output) z m
