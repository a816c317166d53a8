-- ===== src/Writer.antt =====
-- The writer, src/writer.c: an encoder with a buffer, and a decoder behind a buffer for the replies
-- of a bidirectional session. `output` is the group `buf`, `size`, ... of the struct, and `input`
-- the group `read_buf`, `read_size`, ...; `popped` and `read_pushed` stand on their own.
pub mod Decode
pub mod Valid
pub mod Pending
pub mod Rest
pub mod Encoding
pub mod Safe
pub mod Setup
pub mod Duplex
pub mod Replies
pub mod Descriptor
pub mod Sending
pub mod Outcome
pub mod Encodes
pub mod Ending
pub mod Total
pub mod Limits
pub mod Misplaced
pub mod Cut
pub mod Skipped
pub mod Sessions
pub mod Paths
pub mod Diagram
pub mod Closing
pub mod Liveness
pub mod Lost
pub mod Starved
pub mod Pop
pub mod Write
use dnswire.Prelude.{ℕ, ◌≡◌, Bool, true, false, not, Option, none, some, ◌==◌, if◌then◌else◌}
use dnswire.Exec.{Exec, ret, ◌>>=◌, ◌>>◌, assert, Bytes}
use dnswire.Result.{Result, ok, error}
use dnswire.Alloc.{Allocator}
use dnswire.Buffer.{Buffer, defaults, set_size, set_inc, set_max}
use dnswire.Tinyframe.{Tinyframe}
use dnswire.Dnstap.{Dnstap, Protobuf}
use dnswire.Decoder.{Decoder, decoder_initializer}
use dnswire.Encoder.{Encoder, EncoderState, encoder_initializer}
use dnswire.Encoder
use dnswire.Encoder.Loop.{is_set}

pub data WriterState : Type 0 where
  encoding_ready writing_ready reading_accept decoding_accept encoding writing : WriterState
  stopping encoding_stop writing_stop reading_finish decoding_finish done : WriterState

pub record Writer (t : Tinyframe) : Type 0 where
  pub state : WriterState
  pub encoder : Encoder t
  pub output : Buffer
  pub popped : ℕ
  pub decoder : Decoder t
  pub input : Buffer
  pub read_pushed : ℕ
  pub bidirectional : Bool

module _ (t : Tinyframe) where
  abbrev pub Reply : Type 0
  Reply = Result × Writer t

  abbrev pub status : Bool → Result
  status true = ok
  status false = error

  -- `_defaults`
  unfoldable pub writer_defaults : Protobuf → Writer t
  unfolding defaults decoder_initializer encoder_initializer
  writer_defaults pb = record {
    state = encoding;
    encoder = encoder_initializer t;
    output = defaults;
    popped = 0;
    decoder = decoder_initializer t pb;
    input = defaults;
    read_pushed = 0;
    bidirectional = false;
  }

  unfoldable pub init : Protobuf → Allocator → Reply
  unfolding writer_defaults
  init pb al =
      let w = writer_defaults pb in
      elim (al.malloc (w.output.size)) [
        | none ↦ (error, w)
        | some p ↦ (ok, record w { output = record (w.output) { buf = some p } })
      ]

  -- Start a session in both directions: the buffer for the replies must be there.
  unfoldable pub begin_both : Allocator → Writer t → Option Bytes → Reply
  begin_both al w (some p) = (
    ok,
    record w {
      encoder = record (w.encoder) { state = EncoderState.control_ready };
      state = encoding_ready;
      bidirectional = true;
    },
  )
  begin_both al w none = elim (al.malloc (w.input.size)) [
    | none ↦ (error, w)
    | some p ↦ (
      ok,
      record w {
        input = record (w.input) { buf = some p };
        encoder = record (w.encoder) { state = EncoderState.control_ready };
        state = encoding_ready;
        bidirectional = true;
      },
    )
  ]

  unfoldable pub set_bidirectional : Allocator → Writer t → Bool → Reply
  unfolding begin_both
  set_bidirectional al w true = begin_both al w w.input.buf
  set_bidirectional al w false = (
    ok,
    record w {
      encoder = record (w.encoder) { state = EncoderState.control_start };
      state = encoding;
      bidirectional = false;
    },
  )

  unfoldable pub set_bufsize : Allocator → Writer t → ℕ → Exec Reply
  set_bufsize al w size = do
    assert (not (size == 0))
    assert (is_set w.output.buf)
    s ← set_size al w.output size
    ret (status s.0, record w { output = s.1 })

  unfoldable pub set_bufinc : Writer t → ℕ → Exec Reply
  set_bufinc w inc = do
    assert (not (inc == 0))
    let s = set_inc w.output inc
    ret (status s.0, record w { output = s.1 })

  unfoldable pub set_bufmax : Writer t → ℕ → Exec Reply
  set_bufmax w max = do
    assert (not (max == 0))
    let s = set_max w.output max
    ret (status s.0, record w { output = s.1 })

  -- `dnswire_writer_set_dnstap`
  unfoldable pub set_dnstap : Writer t → Option Dnstap → Writer t
  set_dnstap w d = record w { encoder = record (w.encoder) { dnstap = d } }

  -- `_encoding`: the loop, on the encoder and the buffer.
  unfoldable pub writer_encoding : Protobuf → Allocator → Writer t → Exec Reply
  writer_encoding pb al w = do
    x ← Encoder.Loop.encoding t pb al w.encoder w.output
    ret (x.0, record w { encoder = x.1; output = x.2 })

  -- `dnswire_writer_stop`, after `dnswire_encoder_stop`.
  unfoldable pub on_stop : Writer t → Result × Encoder t → Reply
  on_stop w (ok, e) = (ok, record w { encoder = e; state = stopping })
  on_stop w (r, e) = (r, record w { encoder = e })

  unfoldable pub stop : Writer t → Reply
  unfolding Encoder.stop on_stop
  stop w = on_stop w (Encoder.stop t w.encoder)
