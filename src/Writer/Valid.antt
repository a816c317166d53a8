-- ===== src/Writer/Valid.antt =====
-- When a writer is well formed, between two calls, in a session of one direction.
use dnswire.Prelude.{◌≡◌, Bool, true, false}
use dnswire.Buffer.Valid.{IsOutput, IsPresent}
use dnswire.Tinyframe.{Tinyframe}
use dnswire.Encoder.{EncoderState}
use dnswire.Encoder.Contract.{IsLinked}
use dnswire.Writer.{
  Writer, WriterState, encoding, writing, stopping, encoding_stop, writing_stop, done,
}

-- The states of a session of one direction, those where nothing is pending, and those after
-- `dnswire_writer_stop` where the STOP is still to be encoded.
abbrev pub sends : WriterState → Bool
sends encoding = true
sends writing = true
sends stopping = true
sends encoding_stop = true
sends writing_stop = true
sends done = true
sends _ = false

abbrev pub idle : WriterState → Bool
idle encoding = true
idle encoding_stop = true
idle _ = false

abbrev pub stops : WriterState → Bool
stops stopping = true
stops encoding_stop = true
stops _ = false

pub record IsWriter (t : Tinyframe) (w : Writer t) : Type 0 where
  pub output : IsOutput w.output
  pub present : IsPresent w.output.buf
  pub linked : IsLinked w.encoder.dnstap
  pub one_way : w.bidirectional ≡ false
  pub sending : sends w.state ≡ true
  pub quiet : idle w.state ≡ true → w.output.left ≡ 0
  pub stopped : stops w.state ≡ true → w.encoder.state ≡ EncoderState.control_stop
