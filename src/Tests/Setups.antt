-- ===== src/Tests/Setups.antt =====
-- The theorems about setting up a reader and a writer at concrete inputs.
use dnswire.Prelude.{◌≡◌, [], ◌∷◌, true, arith}
use dnswire.Encoder.{EncoderState, encoder_initializer}
use dnswire.Decoder.ContentType.{content_type, is_content_type}
use dnswire.Decoder.Resembling.{Resembles, is_content_type_lem}
use dnswire.Reader.{Reader, ReaderState, reader_defaults, init, set_allow_bidirectional}
use dnswire.Reader.Valid.{IsReader}
use dnswire.Writer.{Writer, WriterState, writer_defaults}
use dnswire.Writer.Valid.{IsWriter}
use dnswire.Prelude.{refl}
use dnswire.Reader.Sessions.{started, allowed, Reached-IsReader}
use dnswire.Tests.Toy.{toy_laws, toy_protobuf_laws, toy, toy_protobuf, toy_alloc, toy_alloc_laws}
use dnswire.Tests.Components.{waiting, sending, empty}

-- Two bytes are read and not yet decoded.
abbrev fed : Reader toy
fed = record (reader_defaults toy toy_protobuf) {
  input = waiting;
  output = empty;
  state = ReaderState.decoding;
}

fed-IsReader : IsReader toy fed
unfolding reader_defaults
fed-IsReader = ground arith

-- A byte is still to be sent, after the START.
abbrev halfway : Writer toy
halfway = record (writer_defaults toy toy_protobuf) {
  state = WriterState.writing;
  output = sending;
  encoder = record (encoder_initializer toy) { state = EncoderState.frames };
}

halfway-IsWriter : IsWriter toy halfway
unfolding writer_defaults encoder_initializer
halfway-IsWriter = ground arith

is_content_type_lem_example :
    (is_content_type (b'p' ∷ b'r' ∷ []) ≡ true → Resembles content_type (b'p' ∷ b'r' ∷ []))
    × (Resembles content_type (b'p' ∷ b'r' ∷ []) → is_content_type (b'p' ∷ b'r' ∷ []) ≡ true)
is_content_type_lem_example = is_content_type_lem (b'p' ∷ b'r' ∷ [])

Reached-IsReader_example :
    IsReader toy (set_allow_bidirectional toy toy_alloc (init toy toy_protobuf toy_alloc).1 true).1
unfolding init reader_defaults
Reached-IsReader_example =
    Reached-IsReader toy toy_protobuf toy_laws toy_protobuf_laws
      (set_allow_bidirectional toy toy_alloc (init toy toy_protobuf toy_alloc).1 true).1
      (allowed toy_alloc true toy_alloc_laws (started toy_alloc toy_alloc_laws refl))
