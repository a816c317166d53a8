-- ===== src/Writer/Sending.antt =====
-- The cases of `dnswire_writer_write` of src/writer.c that write what is pending.
use mathlib.Core.List.{append-nil}
use dnswire.Prelude.{ℕ, ◌<◌, ◌≡◌, ◌⊎◌, refl, sym, [], true, inl, inr, some, ◌==◌, Bool-cases, arith}
use dnswire.Exec.{Exec, Ensures}
use dnswire.Exec.Rules.{Ensures-mono}
use dnswire.Result.{Result, error, again}
use dnswire.Alloc.{Allocator, IsAllocator}
use dnswire.Io.{Io, IsIo}
use dnswire.Buffer.{drain}
use dnswire.Buffer.Valid.{unread, unsent}
use dnswire.Buffer.Drain.{Drained}
use dnswire.Tinyframe.{Tinyframe, IsTinyframe}
use dnswire.Dnstap.{Protobuf}
use dnswire.Writer.{Writer, WriterState, Reply}
use dnswire.Writer.Write.{write_writing_ready, write_writing, write_rest, write_writing_stop}
use dnswire.Writer.Duplex.{IsPeer}
use dnswire.Writer.Descriptor.{
  Flushed, of_Flushed, Moved, Heard, heard, write_out_lem, write_reading_accept_lem,
}

module _ (t : Tinyframe) (pb : Protobuf) (al : Allocator) (tl : IsTinyframe t)
    (laws : IsAllocator al) (io : Io) (il : IsIo io) where
  module _ (w : Writer t) (v : IsPeer t w) where
    pub failed : Flushed t io w (unsent w.output) (error, w)
    failed = record {
      valid = λ h. absurd (h refl);
      same_encoder = refl;
      same_input = refl;
      sent = (0, refl, inl refl);
    }

    Drained-IsPeer :
        (n : ℕ)
        → Drained w.output n (drain w.output n)
        → IsPeer t (record w { output = drain w.output n })
    Drained-IsPeer n d = record {
      output = d.valid;
      present = d.present;
      linked = v.linked;
      input = v.input;
    }

    pub write_writing_lem :
        (res : Result)
        → w.state ≡ WriterState.writing
        → Ensures (Flushed t io w (unsent w.output)) (write_writing t pb al io res w)
    unfolding write_writing
    write_writing_lem res s =
        write_out_lem t pb al io il (Flushed t io w (unsent w.output)) _ w v failed λ n e d p.
          record {
            valid = λ h. ground (arith, d, v);
            same_encoder = ground arith;
            sent = (n, ground (arith, d), inr e);
            same_input = ground arith;
          }

    pub write_writing_ready_lem :
        (res : Result)
        → w.bidirectional ≡ true
        → (w.state ≡ WriterState.writing_ready) ⊎ (w.state ≡ WriterState.writing)
        → Ensures (Moved t io w (unsent w.output)) (write_writing_ready t pb al io res w)
    unfolding write_writing_ready
    write_writing_ready_lem res bi s =
        write_out_lem t pb al io il (Moved t io w (unsent w.output)) _ w v
          (of_Flushed t io w (unsent w.output) (error, w) failed)
          λ n e d p.
            let y = record w { output = drain w.output n } in
            elim (Bool-cases ((drain w.output n).left == 0)) [
              | inl f ↦ rw f (
                  Ensures-mono (Heard t io (record y { state = WriterState.reading_accept }))
                    (Moved t io w (unsent w.output)) _
                    (write_reading_accept_lem t pb al tl laws io il
                      (record y { state = WriterState.reading_accept }) (ground (arith, d, v)) bi
                      (ground arith))
                    λ x h.
                      heard t io w (record y { state = WriterState.reading_accept })
                        (unsent w.output) n x refl refl d.queue (inr e) h)
              | inr f ↦ rw f (record {
                valid = λ h. elim s [ inl a ↦ ground (arith, d, v) | inr a ↦ ground (arith, d, v) ];
                same_encoder = refl;
                sent = (n, d.queue, inr e);
                read = ([], 0, sym (append-nil (unread w.input)), inl refl, inl refl);
              })
            ]

    -- The rule for what is written before the next case.
    pub write_rest_lem :
        (Q : Reply t → Type 0) (next : Writer t → Exec (Reply t))
        → Q (error, w)
        → (w.output.left ≡ 0 → Ensures Q (next w))
        → ((n : ℕ)
            → io.write (unsent w.output) ≡ some n
            → Drained w.output n (drain w.output n)
            → (drain w.output n).left ≡ 0
            → Ensures Q (next (record w { output = drain w.output n })))
        → ((n : ℕ)
            → io.write (unsent w.output) ≡ some n
            → Drained w.output n (drain w.output n)
            → 0 < (drain w.output n).left
            → 0 < n
            → Q (again, record w { output = drain w.output n }))
        → Ensures Q (write_rest t pb al io next w)
    unfolding write_rest
    write_rest_lem Q next q a b c = elim (Bool-cases (w.output.left == 0)) [
      | inl e ↦ rw (e, Ensures) (a (ground arith))
      | inr e ↦
          rw (e, Ensures)
            (write_out_lem t pb al io il Q _ w v q λ n g d p.
              elim (Bool-cases ((drain w.output n).left == 0)) [
                | inl f ↦ rw (f, Ensures) (b n g d (ground arith))
                | inr f ↦ rw (f, Ensures) (c n g d (ground arith) p)
              ])
    ]

    pub write_writing_stop_lem :
        w.state ≡ WriterState.writing_stop
        → Ensures (Flushed t io w (unsent w.output)) (write_writing_stop t pb al io w)
    unfolding write_writing_stop
    write_writing_stop_lem s =
        write_rest_lem (Flushed t io w (unsent w.output)) _ failed
          (λ z. record {
            valid = λ h. ground (arith, v);
            same_encoder = ground arith;
            sent = (0, ground arith, inl refl);
            same_input = ground arith;
          })
          (λ n e d z. record {
            valid = λ h. ground (arith, d, v);
            same_encoder = ground arith;
            sent = (n, ground (arith, d), inr e);
            same_input = ground arith;
          })
          (λ n e d z p. record {
            valid = λ h. ground (arith, d, v);
            same_encoder = refl;
            sent = (n, d.queue, inr e);
            same_input = ground arith;
          })
