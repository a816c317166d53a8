-- ===== src/Reader.antt =====
-- The reader, src/reader.c: a decoder behind a buffer, and an encoder with a buffer for the replies
-- of a bidirectional session. `input` is the group `buf`, `size`, ... of the struct, and `output`
-- the group `write_buf`, `write_size`, ...; `pushed` stands on its own.
pub mod Decode
pub mod Valid
pub mod Steps
pub mod Replies
pub mod Feeding
pub mod Safe
pub mod Transfers
pub mod Descriptor
pub mod Setup
pub mod Sessions
pub mod Paths
pub mod Diagram
pub mod Push
pub mod Read
use dnswire.Prelude.{ℕ, ◌≡◌, Bool, true, false, not, Option, none, some, ◌==◌, if◌then◌else◌}
use dnswire.Exec.{Exec, ret, ◌>>=◌, ◌>>◌, assert, Bytes}
use dnswire.Result.{Result, ok, error}
use dnswire.Alloc.{Allocator}
use dnswire.Buffer.{Buffer, defaults, set_size, set_inc, set_max}
use dnswire.Tinyframe.{Tinyframe}
use dnswire.Dnstap.{Protobuf}
use dnswire.Decoder.{Decoder, decoder_initializer}
use dnswire.Encoder.{Encoder, EncoderState, encoder_initializer}
use dnswire.Encoder.Loop.{is_set, encoding}

pub data ReaderState : Type 0 where
  reading_control decoding_control encoding_accept writing_accept reading : ReaderState
  decoding encoding_finish writing_finish done : ReaderState

pub record Reader (t : Tinyframe) : Type 0 where
  pub state : ReaderState
  pub decoder : Decoder t
  pub input : Buffer
  pub pushed : ℕ
  pub encoder : Encoder t
  pub output : Buffer
  pub allow_bidirectional : Bool
  pub is_bidirectional : Bool

module _ (t : Tinyframe) where
  abbrev pub Reply : Type 0
  Reply = Result × Reader t

  -- A result code for a call that may fail.
  abbrev pub status : Bool → Result
  status true = ok
  status false = error

  -- `_defaults`
  unfoldable pub reader_defaults : Protobuf → Reader t
  unfolding defaults decoder_initializer encoder_initializer
  reader_defaults pb = record {
    state = reading_control;
    decoder = decoder_initializer t pb;
    input = defaults;
    pushed = 0;
    encoder = encoder_initializer t;
    output = defaults;
    allow_bidirectional = false;
    is_bidirectional = false;
  }

  unfoldable pub init : Protobuf → Allocator → Reply
  unfolding reader_defaults
  init pb al =
      let r = reader_defaults pb in
      elim (al.malloc (r.input.size)) [
        | none ↦ (error, r)
        | some p ↦ (ok, record r { input = record (r.input) { buf = some p } })
      ]

  -- Allow a session in both directions: the buffer for the replies must be there.
  unfoldable pub allow : Allocator → Reader t → Option Bytes → Reply
  allow al r (some p) = (
    ok,
    record r {
      encoder = record (r.encoder) { state = EncoderState.control_accept };
      allow_bidirectional = true;
    },
  )
  allow al r none = elim (al.malloc (r.output.size)) [
    | none ↦ (error, r)
    | some p ↦ (
      ok,
      record r {
        output = record (r.output) { buf = some p };
        encoder = record (r.encoder) { state = EncoderState.control_accept };
        allow_bidirectional = true;
      },
    )
  ]

  unfoldable pub set_allow_bidirectional : Allocator → Reader t → Bool → Reply
  unfolding allow
  set_allow_bidirectional al r true = allow al r r.output.buf
  set_allow_bidirectional al r false = (
    ok,
    record r {
      encoder = record (r.encoder) { state = EncoderState.control_start };
      allow_bidirectional = false;
    },
  )

  unfoldable pub set_bufsize : Allocator → Reader t → ℕ → Exec Reply
  set_bufsize al r size = do
    assert (not (size == 0))
    assert (is_set r.input.buf)
    s ← set_size al r.input size
    ret (status s.0, record r { input = s.1 })

  unfoldable pub set_bufinc : Reader t → ℕ → Exec Reply
  set_bufinc r inc = do
    assert (not (inc == 0))
    let s = set_inc r.input inc
    ret (status s.0, record r { input = s.1 })

  unfoldable pub set_bufmax : Reader t → ℕ → Exec Reply
  set_bufmax r max = do
    assert (not (max == 0))
    let s = set_max r.input max
    ret (status s.0, record r { input = s.1 })

  -- `_encoding`: the loop, on the encoder and the buffer for the replies.
  unfoldable pub reader_encoding : Protobuf → Allocator → Reader t → Exec Reply
  reader_encoding pb al r = do
    x ← encoding t pb al r.encoder r.output
    ret (x.0, record r { encoder = x.1; output = x.2 })
