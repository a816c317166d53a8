-- ===== src/Decoder.antt =====
-- The decoder, src/decoder.c: a state machine over the parts that tinyframe finds in the data.
pub mod ContentType
pub mod Resembling
pub mod Contract
pub mod Progress
pub mod Paths
use ContentType.{is_content_type}
use dnswire.Prelude.{ℕ, Bool, true, false, not, length, ◌==◌, if◌then◌else◌}
use dnswire.Exec.{Exec, ret, ◌>>=◌, ◌>>◌, assert, Bytes}
use dnswire.Result.{Result, error, again, need_more, have_dnstap, endofdata, bidirectional}
use dnswire.Tinyframe.{
  TinyframeResult, have_control, have_control_field, have_frame, stopped, finished, Control, Field,
  Tinyframe,
}
use dnswire.Dnstap.{Dnstap, Protobuf, initializer, decode_protobuf, cleanup}

pub data DecoderState : Type 0 where
  reading_control checking_ready checking_accept reading_start checking_start : DecoderState
  reading_frames checking_finish done : DecoderState

pub record Decoder (t : Tinyframe) : Type 0 where
  pub state : DecoderState
  pub reader : t.Reader
  pub dnstap : Dnstap
  pub ready_support_dnstap_protobuf : Bool
  pub accept_support_dnstap_protobuf : Bool

module _ (t : Tinyframe) (pb : Protobuf) where
  -- DNSWIRE_DECODER_INITIALIZER
  unfoldable pub decoder_initializer : Decoder t
  decoder_initializer = record {
    state = reading_control;
    reader = t.reader_initializer;
    dnstap = initializer pb;
    ready_support_dnstap_protobuf = false;
    accept_support_dnstap_protobuf = false;
  }

module _ (t : Tinyframe) where
  unfoldable pub decoded : Decoder t → ℕ
  decoded d = t.bytes_read d.reader

  abbrev pub Reply : Type 0
  Reply = Result × Decoder t

  -- Each case of the `switch` on the state, from the result of `tinyframe_read` on.
  unfoldable pub on_reading_control : Decoder t → TinyframeResult → Reply
  on_reading_control d have_control = elim (t.control_type d.reader) [
    | Control.ready ↦ (again, record d { state = checking_ready })
    | Control.accept ↦ (again, record d { state = checking_accept })
    | Control.start ↦ (again, record d { state = checking_start })
    | _ ↦ (error, d)
  ]
  on_reading_control d TinyframeResult.need_more = (need_more, d)
  on_reading_control d _ = (error, d)

  unfoldable pub on_checking_ready : Decoder t → TinyframeResult → Reply
  on_checking_ready d have_control_field = elim (t.control_field_type d.reader) [
    | Field.unknown ↦ (error, d)
    | Field.content_type ↦
        let e =
          if is_content_type (t.control_field_data d.reader)
          then record d { ready_support_dnstap_protobuf = true }
          else d in
        if t.control_length_left d.reader == 0
        then (bidirectional, record e { state = reading_start })
        else (again, e)
  ]
  on_checking_ready d TinyframeResult.need_more = (need_more, d)
  on_checking_ready d _ = (error, d)

  unfoldable pub on_checking_accept : Decoder t → TinyframeResult → Reply
  on_checking_accept d have_control_field = elim (t.control_field_type d.reader) [
    | Field.unknown ↦ (error, d)
    | Field.content_type ↦
        let e =
          if is_content_type (t.control_field_data d.reader)
          then record d { accept_support_dnstap_protobuf = true }
          else d in
        if t.control_length_left d.reader == 0
        then (bidirectional, record e { state = checking_finish })
        else (again, e)
  ]
  on_checking_accept d TinyframeResult.need_more = (need_more, d)
  on_checking_accept d _ = (error, d)

  unfoldable pub on_reading_start : Decoder t → TinyframeResult → Reply
  on_reading_start d have_control = elim (t.control_type d.reader) [
    | Control.start ↦ (again, record d { state = checking_start })
    | _ ↦ (error, d)
  ]
  on_reading_start d TinyframeResult.need_more = (need_more, d)
  on_reading_start d _ = (error, d)

  unfoldable pub on_checking_start : Decoder t → TinyframeResult → Reply
  on_checking_start d have_control_field = elim (t.control_field_type d.reader) [
    | Field.unknown ↦ (error, d)
    | Field.content_type ↦
        if is_content_type (t.control_field_data d.reader)
        then (again, record d { state = reading_frames })
        else (error, d)
  ]
  on_checking_start d TinyframeResult.need_more = (need_more, d)
  on_checking_start d _ = (error, d)

  unfoldable pub on_reading_frames : Protobuf → Decoder t → TinyframeResult → Exec Reply
  on_reading_frames pb d have_frame = do
    r ← decode_protobuf pb (cleanup (d.dnstap)) (t.frame_data d.reader)
    ret (if r.0 then error else have_dnstap, record d { dnstap = r.1 })
  on_reading_frames pb d TinyframeResult.need_more = ret (need_more, d)
  on_reading_frames pb d stopped = ret (endofdata, record d { state = done })
  on_reading_frames pb d _ = ret (error, d)

  unfoldable pub on_checking_finish : Decoder t → TinyframeResult → Reply
  on_checking_finish d finished = (endofdata, record d { state = done })
  on_checking_finish d TinyframeResult.need_more = (need_more, d)
  on_checking_finish d _ = (error, d)

  -- The `switch` on the state, from the result of `tinyframe_read` on.
  unfoldable pub on_read : Protobuf → DecoderState → Decoder t → TinyframeResult → Exec Reply
  unfolding on_reading_control on_checking_ready on_checking_accept on_reading_start
      on_checking_start on_reading_frames on_checking_finish
  on_read pb reading_control d r = ret (on_reading_control d r)
  on_read pb checking_ready d r = ret (on_checking_ready d r)
  on_read pb checking_accept d r = ret (on_checking_accept d r)
  on_read pb reading_start d r = ret (on_reading_start d r)
  on_read pb checking_start d r = ret (on_checking_start d r)
  on_read pb reading_frames d r = on_reading_frames pb d r
  on_read pb checking_finish d r = ret (on_checking_finish d r)
  on_read pb done d r = ret (error, d)

  -- In `done` tinyframe is not called.
  abbrev pub is_done : DecoderState → Bool
  is_done done = true
  is_done _ = false

  unfoldable pub decode : Protobuf → Decoder t → Bytes → Exec Reply
  unfolding on_read
  decode pb d src = do
    assert (not (length src == 0))
    let r = t.read d.reader src
    if is_done d.state then ret (error, d) else on_read pb d.state (record d { reader = r.1 }) r.0
