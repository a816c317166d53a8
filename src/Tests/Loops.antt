-- ===== src/Tests/Loops.antt =====
-- The theorem about the loop of examples/sender.c at a concrete input.
use dnswire.Exec.{fault, dangling}
use dnswire.Encoder.{EncoderState, encoder_initializer}
use dnswire.Writer.{Writer, WriterState}
use dnswire.Create.{create_dnstap}
use dnswire.Sender.{round}
use dnswire.Sender.Dangles.{round-fault}
use dnswire.Tests.Printing.{inputs}
use dnswire.Tests.Components.{empty, empty-IsOutput}
use dnswire.Prelude.{◌≡◌, refl, [], none, some, arith}
use dnswire.Writer.{writer_defaults, set_dnstap}
use dnswire.Dnstap.{own, Dnstap}
use dnswire.Tests.Toy.{no_root_fields, toy, toy_protobuf, toy_alloc, toy_io}

abbrev pub message : Dnstap
message = record {
  dnstap = record { type = 1; message = own; fields = no_root_fields };
  message = toy_protobuf.message_init;
  policy = toy_protobuf.policy_init;
  unpacked_dnstap = none;
}

-- START is written, and there is room for a frame.
abbrev framing : Writer toy
framing = record (writer_defaults toy toy_protobuf) {
  state = WriterState.encoding;
  encoder = record (encoder_initializer toy) { state = EncoderState.frames };
  output = empty;
}

round-fault_example :
    round toy toy_protobuf toy_alloc
      (toy_io [])
      (toy_io [])
      (set_dnstap toy framing (some (create_dnstap toy_protobuf inputs)))
    ≡ fault dangling
unfolding writer_defaults encoder_initializer
round-fault_example =
    round-fault toy toy_protobuf toy_alloc (toy_io []) (toy_io []) inputs framing refl refl
      empty-IsOutput tt (omega arith)
