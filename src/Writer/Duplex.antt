-- ===== src/Writer/Duplex.antt =====
-- When a writer is well formed, between two calls, in a session of either kind.
use dnswire.Prelude.{◌<◌, ◌≡◌, Bool, true, false, arith}
use dnswire.Buffer.Valid.{IsInput, IsOutput, IsPresent}
use dnswire.Tinyframe.{Tinyframe}
use dnswire.Encoder.{EncoderState}
use dnswire.Encoder.Contract.{IsLinked}
use dnswire.Writer.{
  Writer, WriterState, encoding_ready, writing_ready, reading_accept, decoding_accept, writing,
  stopping, writing_stop, reading_finish, decoding_finish, done,
}
use dnswire.Writer.Valid.{stops, IsWriter}

-- The states that go on with the decoder, those in which a reply is awaited, and those in which
-- nothing is pending.
abbrev pub decodes : WriterState → Bool
decodes decoding_accept = true
decodes decoding_finish = true
decodes _ = false

abbrev pub awaits : WriterState → Bool
awaits encoding_ready = true
awaits writing_ready = true
awaits reading_accept = true
awaits decoding_accept = true
awaits reading_finish = true
awaits decoding_finish = true
awaits _ = false

abbrev pub flushed : WriterState → Bool
flushed writing_ready = false
flushed writing = false
flushed stopping = false
flushed writing_stop = false
flushed done = false
flushed _ = true

module _ (t : Tinyframe) where
  -- What holds in every state.
  pub record IsPeer (w : Writer t) : Type 0 where
    pub output : IsOutput w.output
    pub present : IsPresent w.output.buf
    pub linked : IsLinked w.encoder.dnstap
    pub input : w.bidirectional ≡ true → IsInput w.input

  pub record IsDuplex (w : Writer t) : Type 0 where
    pub basic : IsPeer w
    pub waiting : decodes w.state ≡ true → 0 < w.input.left
    pub awaiting : awaits w.state ≡ true → w.bidirectional ≡ true
    pub quiet : flushed w.state ≡ true → w.output.left ≡ 0
    pub stopped : stops w.state ≡ true → w.encoder.state ≡ EncoderState.control_stop

  -- A writer of one direction is a special case.
  pub of_IsWriter : (w : Writer t) → IsWriter t w → IsDuplex w
  of_IsWriter w v = record {
    basic = ground arith;
    waiting = ground arith;
    awaiting = ground arith;
    quiet = ground arith;
    stopped = ground arith;
  }
