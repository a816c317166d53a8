-- ===== src/Sender/Dangles.antt =====
-- The loop of examples/sender.c with the message that it makes.
use dnswire.Prelude.{◌≡◌, ◌<◌, ◌-◌, refl, ap, false, some, ◌==◌, arith}
use dnswire.Prelude.Size.{sub_size_exact}
use dnswire.Exec.{fault, dangling}
use dnswire.Alloc.{Allocator}
use dnswire.Io.{Io}
use dnswire.Buffer.Valid.{IsOutput, IsPresent}
use dnswire.Tinyframe.{Tinyframe}
use dnswire.Dnstap.{Protobuf}
use dnswire.Encoder.{EncoderState, encode, encode_in, encode_frame, encode_message}
use dnswire.Encoder.Loop.{encoding, encode_into}
use dnswire.Encoder.Loop.Ends.{is_set_of_IsPresent}
use dnswire.Create.{Inputs, create_dnstap}
use dnswire.Create.Made.{encode-create_dnstap}
use dnswire.Writer.{Writer, WriterState, writer_encoding, set_dnstap}
use dnswire.Writer.Write.{write, write_in, write_encoding}
use dnswire.Sender.{round}

module _ (t : Tinyframe) (pb : Protobuf) (al : Allocator) (io io' : Io) (i : Inputs) where
  -- A writer is in the state `encoding`, its encoder is to encode frames, and its output buffer is
  -- well formed, with a block and room. With the message that `create_dnstap` returned, the next
  -- round of the loop of examples/sender.c does not return, whatever the heap and the descriptor
  -- answer: the encoder asks for the size of the message, and follows a pointer into a variable of
  -- a function that has returned.
  pub round-fault :
      (w : Writer t)
      → w.state ≡ WriterState.encoding
      → w.encoder.state ≡ EncoderState.frames
      → IsOutput w.output
      → IsPresent w.output.buf
      → w.output.at < w.output.size
      → round t pb al io io' (set_dnstap t w (some (create_dnstap pb i))) ≡ fault dangling
  unfolding round write write_encoding writer_encoding set_dnstap encoding encode_into encode
      encode_in encode_frame encode_message write_in
  round-fault w s e v p room =
      let room_left : (w.output.size - w.output.at == 0) ≡ false = ground arith in
      rw
        (
          is_set_of_IsPresent w.output.buf p,
          ap (λ z. write_in t pb al io io' z (set_dnstap t w (some (create_dnstap pb i)))) s,
          sub_size_exact w.output.size w.output.at v.inside (omega arith),
          ap
              (λ z.
                encode_in t pb z (record (w.encoder) { dnstap = some (create_dnstap pb i) })
                  (w.output.size - w.output.at))
              e,
          (encode-create_dnstap pb i).0,
          room_left,
        )
        (rw (is_set_of_IsPresent w.output.buf p) refl)
