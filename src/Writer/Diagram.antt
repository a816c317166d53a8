-- ===== src/Writer/Diagram.antt =====
-- `dnswire_writer_write` of src/writer.c follows the diagram of its states.
use dnswire.Prelude.{◌≡◌, refl, sym, subst, Bool, not, ◌&&◌, inl, inr, ◌==◌, Bool-cases}
use dnswire.Exec.{Exec, ret, assert, Allows}
use dnswire.Exec.Rules.{Allows->>=, later}
use dnswire.Result.{Result, error, again, endofdata}
use dnswire.Result.Failing.{Or, of_P, Or-Allows}
use dnswire.Alloc.{Allocator}
use dnswire.Io.{Io}
use dnswire.Buffer.{Buffer}
use dnswire.Encoder.Loop.{is_set}
use dnswire.Tinyframe.{Tinyframe}
use dnswire.Dnstap.{Protobuf}
use dnswire.Writer.{
  Writer, WriterState, writing, encoding_stop, writing_stop, encoding, Reply, writer_encoding,
}
use dnswire.Writer.Pop.{is_error, is_endofdata}
use dnswire.Writer.Write.{
  write_writing_ready, write_encoding_ready, write_writing, write_encoding, write_rest,
  write_writing_stop, write_encoding_stop, write_stopping, write_in, write,
}
use dnswire.Writer.Paths.{
  Accepted, Finished, Stopped, Step, On, write_out-Allows, encoding-Allows, decode_accept-Accepted,
  decode_finish-Finished, reading_accept-Accepted, reading_finish-Finished,
}
use dnswire.Writer.Paths

Or-Step :
    (b : Bool) (s : WriterState) (r : Result) (s' : WriterState)
    → Or (Step b s) r s'
    → Step b s r s'
Or-Step b s error s' p = Paths.fail
Or-Step b s _ s' p = p

module _ (t : Tinyframe) (pb : Protobuf) (al : Allocator) where
  map :
      (P Q : Result → WriterState → Type 0) (m : Exec (Reply t))
      → ((r : Result) (s : WriterState) → P r s → Q r s)
      → Allows (On t P) m
      → Allows (On t Q) m
  map = Or-Allows (λ x. x.state)

  module _ (P : Result → WriterState → Type 0) where
    writing_lem :
        (io : Io) (res : Result) (w : Writer t)
        → P res encoding
        → P res w.state
        → Allows (On t P) (write_writing t pb al io res w)
    unfolding write_writing
    writing_lem io res w p q = write_out-Allows t pb al (On t P) io _ w tt λ o.
        elim (Bool-cases (o.left == 0)) [
          | inl e ↦ rw e (of_P P res encoding p)
          | inr e ↦ rw e (of_P P res w.state q)
        ]

    writing_ready_lem :
        (io : Io) (res : Result) (w : Writer t)
        → P res w.state
        → ((r : Result) (s : WriterState) → Accepted r s → P r s)
        → Allows (On t P) (write_writing_ready t pb al io res w)
    unfolding write_writing_ready
    writing_ready_lem io res w q k = write_out-Allows t pb al (On t P) io _ w tt λ o.
        elim (Bool-cases (o.left == 0)) [
          | inl e ↦ rw e (map Accepted P _ k (reading_accept-Accepted t pb al io _ refl))
          | inr e ↦ rw e (of_P P res w.state q)
        ]

    encoding_lem :
        (io : Io) (w : Writer t)
        → ((r : Result) → P r encoding)
        → ((r : Result) → P r writing)
        → ((r : Result) → P r w.state)
        → Allows (On t P) (write_encoding t pb al io w)
    unfolding write_encoding
    encoding_lem io w p q k =
        Allows->>= _ (On t P) (writer_encoding t pb al w) _ (encoding-Allows t pb al w) λ x h.
          elim (Bool-cases (not (is_error x.0) && not (x.1.output.left == 0))) [
            | inl e ↦ rw e (writing_lem io x.0 (record (x.1) { state = writing }) (p x.0) (q x.0))
            | inr e ↦ rw e (of_P P x.0 x.1.state (subst (P x.0) (sym h.0) (k x.0)))
          ]

    encoding_ready_lem :
        (io : Io) (w : Writer t)
        → ((r : Result) → P r writing)
        → ((r : Result) → P r w.state)
        → ((r : Result) (s : WriterState) → Accepted r s → P r s)
        → Allows (On t P) (write_encoding_ready t pb al io w)
    unfolding write_encoding_ready
    encoding_ready_lem io w q k a =
        Allows->>= _ (On t P) (writer_encoding t pb al w) _ (encoding-Allows t pb al w) λ x h.
          elim (Bool-cases (not (is_error x.0) && not (x.1.output.left == 0))) [
            | inl e ↦ rw e (writing_ready_lem io x.0 (record (x.1) { state = writing }) (q x.0) a)
            | inr e ↦ rw e (of_P P x.0 x.1.state (subst (P x.0) (sym h.0) (k x.0)))
          ]

    rest_lem :
        (io : Io) (next : Writer t → Exec (Reply t)) (w : Writer t)
        → P again w.state
        → ((o : Buffer) → Allows (On t P) (next (record w { output = o })))
        → Allows (On t P) (write_rest t pb al io next w)
    unfolding write_rest
    rest_lem io next w q k = elim (Bool-cases (w.output.left == 0)) [
      | inl e ↦ rw e (k w.output)
      | inr e ↦ rw e (
          write_out-Allows t pb al (On t P) io _ w tt
            λ o. elim (Bool-cases (o.left == 0)) [ inl f ↦ rw f (k o) | inr f ↦ rw f q ])
    ]

    writing_stop_lem :
        (io : Io) (w : Writer t)
        → P again w.state
        → ((r : Result) (s : WriterState) → Stopped w.bidirectional r s → P r s)
        → Allows (On t P) (write_writing_stop t pb al io w)
    unfolding write_writing_stop
    writing_stop_lem io w q k = rest_lem io _ w q λ o. elim (Bool-cases w.bidirectional) [
      | inl e ↦ rw e (k again _ (rw e Paths.both))
      | inr e ↦ rw e (k endofdata _ (rw e Paths.one))
    ]

    encoding_stop_lem :
        (io : Io) (w : Writer t)
        → ((r : Result) → P r w.state)
        → ((r : Result) (s : WriterState) → Stopped w.bidirectional r s → P r s)
        → Allows (On t P) (write_encoding_stop t pb al io w)
    unfolding write_encoding_stop
    encoding_stop_lem io w q k =
        Allows->>= _ (On t P) (writer_encoding t pb al w) _ (encoding-Allows t pb al w) λ x h.
          elim (Bool-cases (is_endofdata x.0)) [
            | inl e ↦ rw e (
                writing_stop_lem io (record (x.1) { state = writing_stop }) (k again _ Paths.rest)
                  λ r s p. k r s (subst (λ b. Stopped b r s) h.1 p))
            | inr e ↦ rw e (of_P P x.0 x.1.state (subst (P x.0) (sym h.0) (q x.0)))
          ]

  stay :
      (b : Bool) (s : WriterState) (r : Result) (s' : WriterState)
      → s ≡ s'
      → Step b s r s
      → Step b s r s'
  stay b s r s' e p = subst (λ x. Step b s r x) e p

  write_in-Step :
      (io io' : Io) (s : WriterState) (w : Writer t)
      → s ≡ w.state
      → Allows (On t (Step w.bidirectional s)) (write_in t pb al io io' s w)
  unfolding write_in write_stopping
  write_in-Step io io' WriterState.encoding_ready w e =
      encoding_ready_lem (Step w.bidirectional WriterState.encoding_ready) io w
        (λ r. Paths.rest_of_ready)
        (λ r. stay w.bidirectional WriterState.encoding_ready r w.state e Paths.no_ready)
        λ r s. Paths.ready
  write_in-Step io io' WriterState.writing_ready w e =
      writing_ready_lem (Step w.bidirectional WriterState.writing_ready) io again w
        (stay w.bidirectional WriterState.writing_ready again w.state e Paths.rest)
        λ r s. Paths.accept
  write_in-Step io io' WriterState.reading_accept w e =
      map Accepted (Step w.bidirectional WriterState.reading_accept) _ (λ r s. Paths.read_accept)
        (reading_accept-Accepted t pb al io w (sym e))
  write_in-Step io io' WriterState.decoding_accept w e =
      map Accepted (Step w.bidirectional WriterState.decoding_accept) _
        (λ r s. Paths.decode_accepted) (decode_accept-Accepted t pb al w (sym e))
  write_in-Step io io' WriterState.encoding w e =
      encoding_lem (Step w.bidirectional WriterState.encoding) io w (λ r. Paths.encode)
        (λ r. Paths.encode_write)
        λ r. stay w.bidirectional WriterState.encoding r w.state e Paths.encode
  write_in-Step io io' WriterState.writing w e =
      writing_lem (Step w.bidirectional WriterState.writing) io again w Paths.written
        (stay w.bidirectional WriterState.writing again w.state e Paths.write_more)
  write_in-Step io io' WriterState.stopping w e =
      rest_lem (Step w.bidirectional WriterState.stopping) io _ w
        (stay w.bidirectional WriterState.stopping again w.state e Paths.flush)
        λ o.
          encoding_stop_lem (Step w.bidirectional WriterState.stopping) io'
            (record w { output = o; state = encoding_stop }) (λ r. Paths.flushed) λ r s. Paths.stop
  write_in-Step io io' WriterState.encoding_stop w e =
      encoding_stop_lem (Step w.bidirectional WriterState.encoding_stop) io w
        (λ r. stay w.bidirectional WriterState.encoding_stop r w.state e Paths.no_stop)
        λ r s. Paths.encode_stop
  write_in-Step io io' WriterState.writing_stop w e =
      writing_stop_lem (Step w.bidirectional WriterState.writing_stop) io w
        (stay w.bidirectional WriterState.writing_stop again w.state e
          (Paths.write_stop Paths.rest))
        λ r s. Paths.write_stop
  write_in-Step io io' WriterState.reading_finish w e =
      map Finished (Step w.bidirectional WriterState.reading_finish) _ (λ r s. Paths.read_finish)
        (reading_finish-Finished t pb al io w)
  write_in-Step io io' WriterState.decoding_finish w e =
      map Finished (Step w.bidirectional WriterState.decoding_finish) _
        (λ r s. Paths.decode_finished) (decode_finish-Finished t pb al w)
  write_in-Step io io' WriterState.done w e = tt

  -- Whenever `dnswire_writer_write` returns, it returns `dnswire_error`, or its result and the
  -- change of state are an edge of the diagram in Writer/Paths.antt. In it a READY that is written
  -- in part leads from `encoding_ready` to `writing`, and a FINISH that is not complete leads to
  -- `reading_accept`.
  pub write-Step :
      (io io' : Io) (w : Writer t) {r : Result} {v : Writer t}
      → write t pb al io io' w ≡ ret (r, v)
      → Step w.bidirectional w.state r v.state
  unfolding write
  write-Step io io' w {r} {v} h = Or-Step w.bidirectional w.state r v.state (
      subst (Allows (On t (Step w.bidirectional w.state))) h
        (later _ (assert (is_set w.output.buf)) _ λ u. write_in-Step io io' w.state w refl))
