-- ===== src/Encoder.antt =====
-- The encoder, src/encoder.c: a state machine that has tinyframe write the next control or frame.
pub mod Contract
pub mod Loop
pub mod Paths
use dnswire.Decoder.ContentType.{content_type}
use dnswire.Prelude.{ℕ, [], ◌∷◌, Option, none, some, not, length, ◌==◌, ltb, if◌then◌else◌}
use dnswire.Exec.{Exec, ret, fault, out_of_bounds, ◌>>=◌, ◌>>◌, assert, Bytes}
use dnswire.Result.{Result, ok, error, again, need_more, endofdata}
use dnswire.Tinyframe.{TinyframeResult, Control, Field, Tinyframe}
use dnswire.Dnstap.{Dnstap, Protobuf, encode_protobuf_size, encode_protobuf}

pub data EncoderState : Type 0 where
  control_ready control_start control_accept control_finish frames control_stop done : EncoderState

-- `dnstap` is null, or what it points at when the encoder is called.
pub record Encoder (t : Tinyframe) : Type 0 where
  pub state : EncoderState
  pub writer : t.Writer
  pub dnstap : Option Dnstap

module _ (t : Tinyframe) where
  -- DNSWIRE_ENCODER_INITIALIZER
  unfoldable pub encoder_initializer : Encoder t
  encoder_initializer = record {
    state = control_start;
    writer = t.writer_initializer;
    dnstap = none;
  }

  unfoldable pub encoded : Encoder t → ℕ
  encoded e = t.bytes_wrote e.writer

  -- A result, the new encoder, and the bytes that were stored at `out`.
  abbrev pub Reply : Type 0
  Reply = Result × Encoder t × Bytes

  abbrev pub Write : Type 0
  Write = TinyframeResult × t.Writer × Bytes

  -- The inner `switch`: on `tinyframe_ok` go to the state `s` and return `r`.
  unfoldable pub settle : Encoder t → EncoderState → Result → Write → Reply
  settle e s r (TinyframeResult.ok, w, out) = (r, record e { writer = w; state = s }, out)
  settle e s r (TinyframeResult.need_more, w, out) = (need_more, record e { writer = w }, out)
  settle e s r (_, w, out) = (error, record e { writer = w }, out)

  -- The case `dnswire_encoder_frames` for a message. The array `frame` has the size that was asked
  -- for; the model faults if the packed message is not of that size.
  unfoldable pub encode_message : Protobuf → Encoder t → ℕ → Dnstap → Exec Reply
  encode_message pb e len d = do
    frame_len ← encode_protobuf_size pb d
    if ltb len (t.frame_size frame_len) then ret (need_more, e, []) else do
      frame ← encode_protobuf pb d
      if length frame == frame_len
          then ret (settle e e.state ok (t.write_frame e.writer len frame))
          else fault out_of_bounds

  -- `dnstap` may be null.
  unfoldable pub encode_frame : Protobuf → Encoder t → ℕ → Option Dnstap → Exec Reply
  encode_frame pb e len none = ret (error, e, [])
  encode_frame pb e len (some d) = encode_message pb e len d

  -- The `switch` on the state.
  unfoldable pub encode_in : Protobuf → EncoderState → Encoder t → ℕ → Exec Reply
  encode_in pb control_ready e len = ret (
      settle e control_start again
        (t.write_control e.writer len Control.ready ((Field.content_type, content_type) ∷ [])))
  encode_in pb control_start e len =
      ret (settle e frames again (t.write_control_start e.writer len content_type))
  encode_in pb control_accept e len = ret (
      settle e control_finish again
        (t.write_control e.writer len Control.accept ((Field.content_type, content_type) ∷ [])))
  encode_in pb control_finish e len =
      ret (settle e done endofdata (t.write_control e.writer len Control.finish []))
  encode_in pb frames e len = encode_frame pb e len e.dnstap
  encode_in pb control_stop e len =
      ret (settle e done endofdata (t.write_control_stop e.writer len))
  encode_in pb done e len = ret (error, e, [])

  unfoldable pub encode : Protobuf → Encoder t → ℕ → Exec Reply
  encode pb e len = do assert (not (len == 0)); encode_in pb e.state e len

  unfoldable pub stop_in : EncoderState → Encoder t → Result × Encoder t
  stop_in frames e = (ok, record e { state = control_stop })
  stop_in _ e = (error, e)

  unfoldable pub stop : Encoder t → Result × Encoder t
  unfolding stop_in
  stop e = stop_in e.state e
