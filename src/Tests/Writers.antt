-- ===== src/Tests/Writers.antt =====
-- The theorems about the writer on a descriptor at concrete inputs.
use dnswire.Prelude.{◌≡◌, refl, [], true, arith}
use dnswire.Exec.{fault, out_of_bounds, Ensures}
use dnswire.Buffer.{defaults}
use dnswire.Encoder.{encoder_initializer}
use dnswire.Writer.{
  Writer, WriterState, writer_defaults, init, set_bidirectional, set_bufsize, stop,
}
use dnswire.Writer.Write.{write}
use dnswire.Writer.Duplex.{IsDuplex}
use dnswire.Writer.Misplaced.{set_bufsize-fault}
use dnswire.Writer.Sessions.{chosen, stopped, Reached-IsDuplex}
use dnswire.Tests.Toy.{
  toy_io, toy, toy_laws, toy_protobuf, toy_protobuf_laws, toy_alloc, toy_alloc_laws,
}
use dnswire.Tests.Components.{sending, empty}

-- The READY waits to be sent, and an ACCEPT is to come.
abbrev greeting : Writer toy
greeting = record (writer_defaults toy toy_protobuf) {
  state = WriterState.writing_ready;
  output = sending;
  input = empty;
  bidirectional = true;
}

abbrev new : Writer toy
new = record (writer_defaults toy toy_protobuf) { output = empty }

new-IsDuplex : IsDuplex toy new
unfolding writer_defaults encoder_initializer defaults
new-IsDuplex = ground arith

Reached-IsDuplex_example :
    IsDuplex toy
      (stop toy (set_bidirectional toy toy_alloc (init toy toy_protobuf toy_alloc).1 true).1).1
unfolding init writer_defaults
Reached-IsDuplex_example =
    Reached-IsDuplex toy toy_protobuf toy_laws toy_protobuf_laws
      (stop toy (set_bidirectional toy toy_alloc (init toy toy_protobuf toy_alloc).1 true).1).1
      (stopped (chosen toy_alloc toy_alloc true toy_alloc_laws toy_alloc_laws refl))

-- Two bytes wait at the front of the buffer.
abbrev crowded : Writer toy
crowded = record (writer_defaults toy toy_protobuf) {
  state = WriterState.writing;
  output = record sending { at = 2; left = 2 };
}

crowded-IsDuplex : IsDuplex toy crowded
unfolding writer_defaults encoder_initializer
crowded-IsDuplex = ground arith

set_bufsize-fault_example :
    Ensures
      (λ x. write toy toy_protobuf toy_alloc (toy_io []) (toy_io []) x.1 ≡ fault out_of_bounds)
      (set_bufsize toy toy_alloc crowded 3)
unfolding writer_defaults
set_bufsize-fault_example =
    set_bufsize-fault toy toy_protobuf toy_alloc crowded 3 toy_alloc_laws crowded-IsDuplex refl
      (omega arith) (omega arith) (omega arith) (omega arith) (omega arith) toy_alloc (toy_io [])
      (toy_io [])
