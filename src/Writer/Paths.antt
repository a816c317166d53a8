-- ===== src/Writer/Paths.antt =====
-- The diagram of the states of a writer on a descriptor, with what each call of
-- `dnswire_writer_write` of src/writer.c returns.
use dnswire.Prelude.{
  ◌≡◌, refl, ◌∙◌, Bool, true, false, inl, inr, Option-cases, length, ◌==◌, Bool-cases,
}
use dnswire.Exec.{Exec, Allows}
use dnswire.Exec.Rules.{Allows->>=, later}
use dnswire.Result.{Result, error, again, need_more, endofdata}
use dnswire.Result.Failing.{Or}
use dnswire.Alloc.{Allocator}
use dnswire.Io.{Io}
use dnswire.Buffer.{free_space, copy_in, head, drain, make_room, window, consume, rewind, Buffer}
use dnswire.Decoder.{decode, decoded}
use dnswire.Tinyframe.{Tinyframe}
use dnswire.Dnstap.{Protobuf}
use dnswire.Encoder.Loop
use dnswire.Writer.{
  Writer, WriterState, encoding_ready, writing_ready, reading_accept, decoding_accept, encoding,
  writing, stopping, encoding_stop, writing_stop, reading_finish, decoding_finish, done, Reply,
  writer_encoding,
}
use dnswire.Writer.Decode.{
  on_bidirectional, on_again, on_need_more, on_accept, on_finish, decode_input, decode_accept,
  decode_finish,
}
use dnswire.Writer.Write.{write_out, read_reply, write_reading_accept, write_reading_finish}

-- What comes of an ACCEPT.
pub data Accepted : Result → WriterState → Type 0 where
  accepted : Accepted again encoding
  field : Accepted again decoding_accept
  next_field : Accepted again reading_accept
  more : Accepted need_more reading_accept

-- What comes of a FINISH. For more data the state is that of an ACCEPT.
pub data Finished : Result → WriterState → Type 0 where
  finished : Finished endofdata done
  more : Finished need_more reading_accept

-- What comes of a STOP that is written, in a session of both directions or of one.
pub data Stopped : Bool → Result → WriterState → Type 0 where
  both : Stopped true again reading_finish
  one : Stopped false endofdata done
  rest : {b : Bool} → Stopped b again writing_stop

pub data Step (b : Bool) : WriterState → Result → WriterState → Type 0 where
  fail : {s s' : WriterState} → Step b s error s'
  no_ready : {r : Result} → Step b encoding_ready r encoding_ready
  rest_of_ready : {r : Result} → Step b encoding_ready r writing
  ready : {r : Result} {s : WriterState} → Accepted r s → Step b encoding_ready r s
  rest : Step b writing_ready again writing_ready
  accept : {r : Result} {s : WriterState} → Accepted r s → Step b writing_ready r s
  read_accept : {r : Result} {s : WriterState} → Accepted r s → Step b reading_accept r s
  decode_accepted : {r : Result} {s : WriterState} → Accepted r s → Step b decoding_accept r s
  encode : {r : Result} → Step b encoding r encoding
  encode_write : {r : Result} → Step b encoding r writing
  write_more : Step b writing again writing
  written : Step b writing again encoding
  flush : Step b stopping again stopping
  flushed : {r : Result} → Step b stopping r encoding_stop
  stop : {r : Result} {s : WriterState} → Stopped b r s → Step b stopping r s
  no_stop : {r : Result} → Step b encoding_stop r encoding_stop
  encode_stop : {r : Result} {s : WriterState} → Stopped b r s → Step b encoding_stop r s
  write_stop : {r : Result} {s : WriterState} → Stopped b r s → Step b writing_stop r s
  read_finish : {r : Result} {s : WriterState} → Finished r s → Step b reading_finish r s
  decode_finished : {r : Result} {s : WriterState} → Finished r s → Step b decoding_finish r s

module _ (t : Tinyframe) where
  abbrev pub On : (Result → WriterState → Type 0) → Reply t → Type 0
  On P x = Or P x.0 x.1.state

  module _ (pb : Protobuf) (al : Allocator) where
    pub write_out-Allows :
        (P : Reply t → Type 0) (io : Io) (next : Writer t → Exec (Reply t)) (w : Writer t)
        → P (error, w)
        → ((o : Buffer) → Allows P (next (record w { output = o })))
        → Allows P (write_out t pb al io next w)
    unfolding write_out
    write_out-Allows P io next w e k = later P (head w.output w.output.left) _ λ h.
        elim (Option-cases (io.write h)) [
          | inl n ↦ rw n e
          | inr (m, n) ↦ elim (Bool-cases (m == 0)) [
            | inl z ↦ rw (n, z) e
            | inr z ↦ rw (n, z) (k (drain w.output m))
          ]
        ]

    pub read_reply-Allows :
        (P : Reply t → Type 0) (io : Io) (next : Writer t → Exec (Reply t)) (w : Writer t)
        → P (error, w)
        → ((i : Buffer) → Allows P (next (record w { input = i })))
        → Allows P (read_reply t pb al io next w)
    unfolding read_reply
    read_reply-Allows P io next w e k = elim (Option-cases (io.read (free_space w.input))) [
      | inl n ↦ rw (n, read_reply) e
      | inr (bs, n) ↦ elim (Bool-cases (length bs == 0)) [
        | inl z ↦ rw (n, z, read_reply) e
        | inr z ↦ rw (n, z, read_reply) (later P (copy_in w.input (length bs) bs) _ λ b. k b)
      ]
    ]

    pub encoding-Allows :
        (w : Writer t)
        → Allows
            (λ x. (x.1.state ≡ w.state) × (x.1.bidirectional ≡ w.bidirectional))
            (writer_encoding t pb al w)
    unfolding writer_encoding
    encoding-Allows w = later _ (Loop.encoding t pb al w.encoder w.output) _ λ x. (refl, refl)

    on_need_more-Allows :
        (P : Result → WriterState → Type 0)
        → P need_more reading_accept
        → (w : Writer t) → Allows (On P) (on_need_more t al w)
    unfolding on_need_more
    on_need_more-Allows P p w =
        later (On P) (make_room al w.input) _
          λ m. elim (Option-cases m) [ inl e ↦ rw e tt | inr (b, e) ↦ rw e p ]

    decode_input-Allows :
        (w : Writer t) → Allows (λ x. x.1.state ≡ w.state) (decode_input t pb al w)
    unfolding decode_input
    decode_input-Allows w =
        later _ (window w.input) _ λ s. later _ (decode t pb w.decoder s) _ λ x. refl

    on_accept-Accepted :
        (r : Result) (w : Writer t)
        → w.state ≡ decoding_accept
        → Allows (On Accepted) (on_accept t al r w)
    unfolding on_accept on_bidirectional on_again
    on_accept-Accepted Result.need_more w e = on_need_more-Allows Accepted more w
    on_accept-Accepted Result.bidirectional w e =
        elim (Bool-cases w.decoder.accept_support_dnstap_protobuf) [
          | inl h ↦ rw h accepted
          | inr h ↦ rw h tt
        ]
    on_accept-Accepted Result.again w e =
        elim (Bool-cases ((rewind (consume w.input (decoded t w.decoder))).left == 0)) [
          | inl h ↦ rw h next_field
          | inr h ↦ rw (h, e) field
        ]
    on_accept-Accepted _ w e = tt

    pub decode_accept-Accepted :
        (w : Writer t) → w.state ≡ decoding_accept → Allows (On Accepted) (decode_accept t pb al w)
    unfolding decode_accept
    decode_accept-Accepted w e =
        Allows->>= (λ x. x.1.state ≡ w.state) (On Accepted) (decode_input t pb al w) _
          (decode_input-Allows w) λ x h. on_accept-Accepted x.0 x.1 (h ∙ e)

    on_finish-Finished : (r : Result) (w : Writer t) → Allows (On Finished) (on_finish t al r w)
    unfolding on_finish
    on_finish-Finished Result.need_more w = on_need_more-Allows Finished more w
    on_finish-Finished Result.endofdata w = finished
    on_finish-Finished _ w = tt

    pub decode_finish-Finished : (w : Writer t) → Allows (On Finished) (decode_finish t pb al w)
    unfolding decode_finish
    decode_finish-Finished w =
        later (On Finished) (decode_input t pb al w) _ λ x. on_finish-Finished x.0 x.1

    pub reading_accept-Accepted :
        (io : Io) (w : Writer t)
        → w.state ≡ reading_accept
        → Allows (On Accepted) (write_reading_accept t pb al io w)
    unfolding write_reading_accept
    reading_accept-Accepted io w e =
        read_reply-Allows (On Accepted) io _ w tt λ i. decode_accept-Accepted _ refl

    pub reading_finish-Finished :
        (io : Io) (w : Writer t) → Allows (On Finished) (write_reading_finish t pb al io w)
    unfolding write_reading_finish
    reading_finish-Finished io w =
        read_reply-Allows (On Finished) io _ w tt λ i. decode_finish-Finished _
