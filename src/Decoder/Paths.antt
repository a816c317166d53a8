-- ===== src/Decoder/Paths.antt =====
-- The diagram of the decoder's states, with what each step returns.
use dnswire.Prelude.{◌≡◌, arith}
use dnswire.Exec.{ret, Bytes}
use dnswire.Result.{Result, error, again, need_more, have_dnstap, endofdata, bidirectional}
use dnswire.Tinyframe.{TinyframeResult, Tinyframe}
use dnswire.Dnstap.{Protobuf}
use dnswire.Decoder.{
  DecoderState, reading_control, checking_ready, checking_accept, reading_start, checking_start,
  reading_frames, checking_finish, done, Decoder, on_reading_control, on_checking_ready,
  on_checking_accept, on_reading_start, on_checking_start, on_reading_frames, on_checking_finish,
  on_read, decode,
}

pub data Step : DecoderState → Result → DecoderState → Type 0 where
  wait : {s : DecoderState} → Step s need_more s
  fail : {s : DecoderState} → Step s error s
  found_ready : Step reading_control again checking_ready
  found_accept : Step reading_control again checking_accept
  found_start : Step reading_control again checking_start
  ready_field : Step checking_ready again checking_ready
  ready_end : Step checking_ready bidirectional reading_start
  accept_field : Step checking_accept again checking_accept
  accept_end : Step checking_accept bidirectional checking_finish
  start : Step reading_start again checking_start
  start_field : Step checking_start again reading_frames
  frame : Step reading_frames have_dnstap reading_frames
  stop : Step reading_frames endofdata done
  finish : Step checking_finish endofdata done

ruleset steps = (
  wait, fail, found_ready, found_accept, found_start, ready_field, ready_end, accept_field,
  accept_end, start, start_field, frame, stop, finish,
)

module _ (t : Tinyframe) (pb : Protobuf) where
  on_read-Step :
      (d : Decoder t) (x : TinyframeResult) {r : Result} {e : Decoder t}
      → on_read t pb d.state d x ≡ ret (r, e)
      → Step d.state r e.state
  unfolding on_read on_reading_control on_checking_ready on_checking_accept on_reading_start
      on_checking_start on_checking_finish on_reading_frames
  on_read-Step d x h = grind (arith, steps)

  -- Whenever `dnswire_decoder_decode` returns, its result and the change of state are an edge of
  -- the diagram; an error and a need for more data leave the state alone.
  pub decode-Step :
      (d : Decoder t) (src : Bytes) {r : Result} {e : Decoder t}
      → decode t pb d src ≡ ret (r, e)
      → Step d.state r e.state
  unfolding decode
  decode-Step d src h = grind (arith, steps, on_read-Step)
