-- ===== src/Encoder/Paths.antt =====
-- The diagram of the encoder's states, with what each call returns.
use dnswire.Prelude.{ℕ, ◌≡◌, arith}
use dnswire.Exec.{ret, Bytes}
use dnswire.Result.{Result, ok, error, again, need_more, endofdata}
use dnswire.Tinyframe.{Tinyframe}
use dnswire.Dnstap.{Protobuf}
use dnswire.Encoder.{
  EncoderState, control_ready, control_start, control_accept, control_finish, frames, control_stop,
  done, Encoder, settle, encode_message, encode_frame, encode_in, encode,
}

pub data Step : EncoderState → Result → EncoderState → Type 0 where
  wait : {s : EncoderState} → Step s need_more s
  fail : {s : EncoderState} → Step s error s
  ready : Step control_ready again control_start
  start : Step control_start again frames
  accept : Step control_accept again control_finish
  finish : Step control_finish endofdata done
  frame : Step frames ok frames
  stopped : Step control_stop endofdata done

ruleset steps = (wait, fail, ready, start, accept, finish, frame, stopped)

module _ (t : Tinyframe) (pb : Protobuf) where
  encode_frame-Step :
      (e : Encoder t) (len : ℕ) {r : Result} {f : Encoder t} {out : Bytes}
      → e.state ≡ frames
      → encode_frame t pb e len e.dnstap ≡ ret (r, f, out)
      → Step e.state r f.state
  unfolding encode_frame encode_message settle
  encode_frame-Step e len q h = grind (arith, steps)

  -- Whenever `dnswire_encoder_encode` returns, its result and the change of state are an edge of
  -- the diagram: a control frame leads on to the next state, a data frame leads back to `frames`,
  -- and an error and a need for more room leave the state alone.
  pub encode-Step :
      (e : Encoder t) (len : ℕ) {r : Result} {f : Encoder t} {out : Bytes}
      → encode t pb e len ≡ ret (r, f, out)
      → Step e.state r f.state
  unfolding encode encode_in settle
  encode-Step e len h = grind (arith, steps, encode_frame-Step)
