-- ===== src/Tests/Paths.antt =====
-- The theorems about the order of the states at concrete inputs.
use dnswire.Prelude.{true, none, some, take, ◌≡◌, ◌⊎◌, ◌∷◌, refl, [], false, arith}
use dnswire.Prelude.Size.{sub_size}
use dnswire.Buffer.{free_space, copy_in, window, make_room, head, drain, scribble, advance}
use dnswire.Result.{error, again, need_more}
use dnswire.Decoder.{DecoderState, decoder_initializer, decode}
use dnswire.Encoder.{EncoderState, encoder_initializer, settle, encode_in, encode, encoded}
use dnswire.Encoder.Paths.{encode-Step, Step as EncoderStep}
use dnswire.Reader.{Reader, ReaderState, reader_defaults}
use dnswire.Reader.Read.{write_fd, read_in, read}
use dnswire.Reader.Paths.{Step as ReaderStep}
use dnswire.Reader.Diagram.{read-Step}
use dnswire.Writer.{Writer, WriterState, writer_defaults, stop, writer_encoding, set_dnstap}
use dnswire.Encoder.Loop
use dnswire.Writer.Decode.{
  decode_finish, decode_input, on_finish, on_need_more, decode_accept, on_accept,
}
use dnswire.Writer.Write.{
  write_reading_finish, read_reply, write_reading_accept, write_out, write_writing, write_in, write,
  write_encoding_ready, write_writing_ready,
}
use dnswire.Writer.Duplex.{IsDuplex}
use dnswire.Writer.Paths.{Step}
use dnswire.Writer.Diagram.{write-Step}
use dnswire.Writer.Cut.{cut, write-After}
use dnswire.Writer.Skipped.{Skips, split, message, Later-Skips}
use dnswire.Writer.Liveness.{Ends, stop-Ends}
use dnswire.Tinyframe.{Tinyframe, TinyframeResult}
use dnswire.Tests.Toy.{toy_io, toy, toy_laws, toy_protobuf, toy_protobuf_laws, toy_alloc}
use dnswire.Tests.Components.{sending, empty}

encode-Step_example : EncoderStep EncoderState.control_start again EncoderState.frames
unfolding encode encoder_initializer encode_in settle
encode-Step_example = encode-Step toy toy_protobuf (encoder_initializer toy) 3 refl

-- START was written, and a message was encoded.
abbrev sender : Writer toy
sender = record (writer_defaults toy toy_protobuf) {
  state = WriterState.writing;
  encoder = record (encoder_initializer toy) { state = EncoderState.frames };
  output = sending;
}

sender-IsDuplex : IsDuplex toy sender
unfolding writer_defaults encoder_initializer
sender-IsDuplex = ground arith

write-Step_example : Step false WriterState.writing again WriterState.encoding
unfolding write writer_defaults write_in write_writing write_out head drain
write-Step_example = write-Step toy toy_protobuf toy_alloc (toy_io []) (toy_io []) sender refl

stop-Ends_example : Ends toy toy_protobuf (stop toy sender).1
unfolding stop writer_defaults
stop-Ends_example =
    stop-Ends toy toy_protobuf toy_laws toy_protobuf_laws sender sender-IsDuplex refl

-- READY was answered, and the rest of the ACCEPT is pending.
abbrev replying : Reader toy
replying = record (reader_defaults toy toy_protobuf) {
  state = ReaderState.writing_accept;
  input = empty;
  output = sending;
}

read-Step_example :
    ReaderStep false false ReaderState.writing_accept again ReaderState.reading_control
unfolding read reader_defaults read_in write_fd head drain
read-Step_example = read-Step toy toy_protobuf toy_alloc (toy_io []) replying refl

-- STOP was sent, and a FINISH is awaited, which comes in two pieces.
abbrev closing : Writer toy
closing = record (writer_defaults toy toy_protobuf) {
  state = WriterState.reading_finish;
  decoder = record (decoder_initializer toy toy_protobuf) { state = DecoderState.checking_finish };
  output = empty;
  input = empty;
  bidirectional = true;
}

write-After_example : (need_more ≡ error) ⊎ (need_more ≡ need_more)
unfolding write writer_defaults decoder_initializer write_in write_reading_finish read_reply
    free_space copy_in decode_finish decode_input window decode on_finish on_need_more make_room
    write_reading_accept decode_accept on_accept
write-After_example =
    write-After toy toy_protobuf closing _ toy_alloc (toy_io (7 ∷ [])) (toy_io []) refl refl
      (cut toy_alloc (toy_io (8 ∷ [])) (toy_io []) refl) refl

-- A READY of three bytes.
abbrev wide : Tinyframe
wide = record toy {
  write_control = λ w len c fs. (TinyframeResult.ok, w, take len (2 ∷ 2 ∷ 2 ∷ []));
  bytes_wrote = λ w. 3;
}

-- The session starts, and the descriptor takes two bytes of the READY.
abbrev starting : Writer wide
starting = record (writer_defaults wide toy_protobuf) {
  state = WriterState.encoding_ready;
  encoder = record (encoder_initializer wide) { state = EncoderState.control_ready };
  output = empty;
  input = empty;
  bidirectional = true;
}

-- One byte of the READY is left.
abbrev split_ready : Writer wide
split_ready = record starting {
  state = WriterState.writing;
  encoder = record (encoder_initializer wide) { state = EncoderState.control_start };
  output = record empty { buf = some (2 ∷ 2 ∷ 2 ∷ 0 ∷ []); at = 3; left = 1 };
}

Later-Skips_example : Skips wide starting (set_dnstap wide split_ready none)
unfolding write write_in write_encoding_ready write_writing_ready write_out writer_encoding
    Loop.encoding set_dnstap Loop.encode_into encode sub_size encode_in scribble settle
    Loop.on_encoded advance encoded head drain
Later-Skips_example =
    Later-Skips wide toy_protobuf starting (set_dnstap wide split_ready none) refl (
      message none (
        split toy_alloc (toy_io []) (toy_io []) {v = split_ready} {r = again} refl
          (λ h. ground arith) (ground arith)))
