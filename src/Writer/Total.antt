-- ===== src/Writer/Total.antt =====
-- `dnswire_writer_write` of src/writer.c as a whole.
use mathlib.Core.List.{append-nil}
use dnswire.Prelude.{◌≡◌, refl, sym, subst, ap, ◌∙◌, [], true, inl, inr, length, drop, arith}
use dnswire.Exec.{Ensures}
use dnswire.Exec.Rules.{Ensures-mono}
use dnswire.Result.{error, again}
use dnswire.Alloc.{Allocator, IsAllocator}
use dnswire.Io.{Io, IsIo}
use dnswire.Buffer.{drain}
use dnswire.Buffer.Valid.{unread, unsent}
use dnswire.Buffer.Drain.{length-unsent}
use dnswire.Tinyframe.{Tinyframe, IsTinyframe}
use dnswire.Dnstap.{Protobuf, IsProtobuf}
use dnswire.Encoder.{control_stop}
use dnswire.Writer.{Writer, WriterState, Reply}
use dnswire.Writer.Valid.{stops}
use dnswire.Writer.Duplex.{awaits, flushed, IsDuplex}
use dnswire.Writer.Replies.{Answered, decode_accept-Answered, decode_finish-Answered}
use dnswire.Writer.Descriptor.{
  Flushed, of_Flushed, Moved, Heard, heard, write_reading_accept_lem, write_reading_finish_lem,
}
use dnswire.Encoder.Loop.Ends.{is_set_of_IsPresent}
use dnswire.Writer.Write.{write_stopping, write_in, write}
use dnswire.Writer.Sending.{
  failed, write_writing_lem, write_writing_ready_lem, write_rest_lem, write_writing_stop_lem,
}
use dnswire.Writer.Outcome.{Wrote, of_Moved}
use dnswire.Writer.Encodes.{write_encoding_lem, write_encoding_ready_lem}
use dnswire.Writer.Ending.{Ended, write_encoding_stop_lem, of_Ended, unsent_empty, in_two}

module _ (t : Tinyframe) (pb : Protobuf) (al : Allocator) (tl : IsTinyframe t) (pl : IsProtobuf pb)
    (laws : IsAllocator al) where
  module _ (io io' : Io) (il : IsIo io) (il' : IsIo io') where
    write_stopping_lem :
        (w : Writer t)
        → IsDuplex t w
        → w.state ≡ WriterState.stopping
        → Ensures (Wrote t pb io io' w) (write_stopping t pb al io io' w)
    unfolding write_stopping
    write_stopping_lem w v s =
        let st : w.encoder.state ≡ control_stop = v.stopped (rw s refl) in
        write_rest_lem t pb al tl laws io il w v.basic (Wrote t pb io io' w) _
          (of_Moved t pb io io' w (error, w)
            (of_Flushed t io w (unsent w.output) (error, w)
              (failed t pb al tl laws io il w v.basic)))
          (λ z.
            let y = record w { state = WriterState.encoding_stop } in
            Ensures-mono (Ended t pb al tl pl laws io' y) (Wrote t pb io io' w) _
              (write_encoding_stop_lem t pb al tl pl laws io' il' y (ground (arith, v)) st z)
              λ x h.
                in_two t pb al tl pl laws io io' w y x
                  (inl (unsent_empty t pb al tl pl laws w.output z))
                  (unsent_empty t pb al tl pl laws w.output z) refl refl h)
          (λ n e d z.
            let y = record w { output = drain w.output n; state = WriterState.encoding_stop } in
            let l : length (unsent w.output) ≡ n =
              omega (arith, d.amount, length-unsent w.output v.basic.output v.basic.present) in
            Ensures-mono (Ended t pb al tl pl laws io' y) (Wrote t pb io io' w) _
              (write_encoding_stop_lem t pb al tl pl laws io' il' y (ground (arith, v, d)) st z)
              λ x h.
                in_two t pb al tl pl laws io io' w y x (inr (rw l e))
                  (unsent_empty t pb al tl pl laws (drain w.output n) z) refl refl h)
          (λ n e d p o.
            of_Moved t pb io io' w (again, record w { output = drain w.output n })
              (of_Flushed t io w (unsent w.output) (again, record w { output = drain w.output n })
                (record {
                  valid = λ h. ground (arith, d, v);
                  same_encoder = refl;
                  same_input = refl;
                  sent = (n, d.queue, inr e);
                })))

    of_Heard : (w : Writer t) (x : Reply t) → Heard t io w x → Wrote t pb io io' w x
    of_Heard w x h =
        of_Moved t pb io io' w x (heard t io w w (unsent w.output) 0 x refl refl refl (inl refl) h)

    of_Answered :
        (w : Writer t) (x : Reply t) → Answered t w (unread w.input) x → Wrote t pb io io' w x
    of_Answered w x a = of_Heard w x (record {
      valid = a.valid;
      same_encoder = a.same_encoder;
      same_output = a.same_output;
      read = (
        [],
        a.queue.0,
        a.queue.1 ∙ ap (λ b. drop a.queue.0 b) (sym (append-nil (unread w.input))),
        inl refl,
        a.queue.2,
      );
    })

    write_in_lem :
        (s : WriterState) (w : Writer t)
        → s ≡ w.state
        → IsDuplex t w
        → Ensures (Wrote t pb io io' w) (write_in t pb al io io' s w)
    unfolding write_in
    write_in_lem WriterState.encoding_ready w e v =
        write_encoding_ready_lem t pb al tl pl laws io io' il w v (sym e)
    write_in_lem WriterState.writing_ready w e v =
        Ensures-mono (Moved t io w (unsent w.output)) (Wrote t pb io io' w) _
          (write_writing_ready_lem t pb al tl laws io il w v.basic again
            (v.awaiting (subst (λ s. awaits s ≡ true) e refl)) (inl (sym e)))
          λ x m. of_Moved t pb io io' w x m
    write_in_lem WriterState.reading_accept w e v =
        Ensures-mono (Heard t io w) (Wrote t pb io io' w) _
          (write_reading_accept_lem t pb al tl laws io il w v.basic
            (v.awaiting (subst (λ s. awaits s ≡ true) e refl))
            (v.quiet (subst (λ s. flushed s ≡ true) e refl)))
          λ x h. of_Heard w x h
    write_in_lem WriterState.decoding_accept w e v =
        Ensures-mono (Answered t w (unread w.input)) (Wrote t pb io io' w) _
          (decode_accept-Answered t pb al tl laws w v (sym e)) λ x h. of_Answered w x h
    write_in_lem WriterState.encoding w e v =
        write_encoding_lem t pb al tl pl laws io io' il w v (sym e)
    write_in_lem WriterState.writing w e v =
        Ensures-mono (Flushed t io w (unsent w.output)) (Wrote t pb io io' w) _
          (write_writing_lem t pb al tl laws io il w v.basic again (sym e))
          λ x f. of_Moved t pb io io' w x (of_Flushed t io w (unsent w.output) x f)
    write_in_lem WriterState.stopping w e v = write_stopping_lem w v (sym e)
    write_in_lem WriterState.encoding_stop w e v =
        Ensures-mono (Ended t pb al tl pl laws io w) (Wrote t pb io io' w) _
          (write_encoding_stop_lem t pb al tl pl laws io il w v.basic
            (v.stopped (subst (λ s. stops s ≡ true) e refl))
            (v.quiet (subst (λ s. flushed s ≡ true) e refl)))
          λ x h. of_Ended t pb al tl pl laws io io' w x h
    write_in_lem WriterState.writing_stop w e v =
        Ensures-mono (Flushed t io w (unsent w.output)) (Wrote t pb io io' w) _
          (write_writing_stop_lem t pb al tl laws io il w v.basic (sym e))
          λ x f. of_Moved t pb io io' w x (of_Flushed t io w (unsent w.output) x f)
    write_in_lem WriterState.reading_finish w e v =
        Ensures-mono (Heard t io w) (Wrote t pb io io' w) _
          (write_reading_finish_lem t pb al tl laws io il w v.basic
            (v.awaiting (subst (λ s. awaits s ≡ true) e refl))
            (v.quiet (subst (λ s. flushed s ≡ true) e refl)))
          λ x h. of_Heard w x h
    write_in_lem WriterState.decoding_finish w e v =
        Ensures-mono (Answered t w (unread w.input)) (Wrote t pb io io' w) _
          (decode_finish-Answered t pb al tl laws w v (sym e)) λ x h. of_Answered w x h
    write_in_lem WriterState.done w e v =
        of_Heard w (error, w)
          (record {
            valid = λ h. v;
            same_encoder = refl;
            same_output = refl;
            read = ([], 0, sym (append-nil (unread w.input)), inl refl, inl refl);
          })

    pub write_lem :
        (w : Writer t) → IsDuplex t w → Ensures (Wrote t pb io io' w) (write t pb al io io' w)
    unfolding write
    write_lem w v =
        rw (is_set_of_IsPresent w.output.buf v.basic.present) (write_in_lem w.state w refl v)
