-- ===== src/Tests/Sessions.antt =====
-- The theorems about the reader and the writer at concrete inputs.
use dnswire.Prelude.{refl, [], ◌∷◌, true, none, some, arith, ◌≡◌, ◌++◌, inl}
use dnswire.Exec.{Ensures, fault, assertion}
use dnswire.Reader.{Reader, reader_defaults}
use dnswire.Reader.Push.{push}
use dnswire.Reader.Valid.{IsReader, Stepped}
use dnswire.Reader.Feeding.{Good}
use dnswire.Reader.Safe.{push_lem}
use dnswire.Encoder.{encoder_initializer, EncoderState}
use dnswire.Buffer.Valid.{unread}
use dnswire.Reader.Read.{read}
use dnswire.Reader.Transfers.{received}
use dnswire.Reader.Descriptor.{read_lem}
use dnswire.Writer.{Writer, WriterState, writer_defaults}
use dnswire.Writer.Pop.{pop}
use dnswire.Writer.Valid.{IsWriter}
use dnswire.Writer.Rest.{Popped}
use dnswire.Writer.Safe.{pop_lem}
use dnswire.Writer.Starved.{pop-fault}
use dnswire.Writer.Lost.{Lost, pop-Lost}
use dnswire.Tests.Toy.{
  toy_io, toy_io_laws, toy, toy_laws, toy_protobuf, toy_protobuf_laws, toy_alloc, toy_alloc_laws,
}
use dnswire.Tests.Components.{empty-IsInput, sending, empty}

abbrev fresh : Reader toy
fresh = record (reader_defaults toy toy_protobuf) { input = empty; output = empty }

fresh-IsReader : IsReader toy fresh
unfolding reader_defaults
fresh-IsReader = ground arith

push_lem_example :
    Ensures
      (Good toy fresh (3 ∷ 4 ∷ 5 ∷ []))
      (push toy toy_protobuf toy_alloc fresh (3 ∷ 4 ∷ 5 ∷ []) none none)
unfolding reader_defaults
push_lem_example =
    push_lem toy toy_protobuf toy_alloc toy_laws toy_protobuf_laws toy_alloc_laws fresh
      (3 ∷ 4 ∷ 5 ∷ []) none none fresh-IsReader (omega arith) (λ e. cc)

read_lem_example :
    Ensures
      (Stepped toy (unread fresh.input ++ received toy (toy_io (3 ∷ 4 ∷ [])) fresh) fresh.pushed)
      (read toy toy_protobuf toy_alloc (toy_io (3 ∷ 4 ∷ [])) fresh)
read_lem_example =
    read_lem toy toy_protobuf toy_alloc toy_laws toy_protobuf_laws toy_alloc_laws
      (toy_io (3 ∷ 4 ∷ [])) (toy_io_laws (3 ∷ 4 ∷ [])) fresh fresh-IsReader

abbrev sender : Writer toy
sender = record (writer_defaults toy toy_protobuf) { output = empty }

sender-IsWriter : IsWriter toy sender
unfolding writer_defaults encoder_initializer
sender-IsWriter = ground arith

pop_lem_example :
    Ensures
      (Popped toy toy_protobuf sender 2)
      (pop toy toy_protobuf toy_alloc sender (0 ∷ 0 ∷ []) 2 none none)
unfolding writer_defaults
pop_lem_example =
    pop_lem toy toy_protobuf toy_alloc toy_laws toy_protobuf_laws toy_alloc_laws sender (0 ∷ 0 ∷ [])
      2 none none sender-IsWriter (omega arith) (omega arith) (λ e. refl)

-- Stopped with one byte to send.
abbrev stopped : Writer toy
stopped = record sender {
  state = WriterState.stopping;
  output = sending;
  encoder = record (encoder_initializer toy) { state = EncoderState.control_stop };
}

stopped-IsWriter : IsWriter toy stopped
unfolding writer_defaults encoder_initializer
stopped-IsWriter = ground arith

pop-Lost_example :
    Ensures
      (Lost toy toy_protobuf stopped.encoder 2)
      (pop toy toy_protobuf toy_alloc stopped (0 ∷ 0 ∷ []) 2 none none)
pop-Lost_example =
    pop-Lost toy toy_protobuf toy_alloc toy_laws toy_protobuf_laws toy_alloc_laws stopped
      (0 ∷ 0 ∷ []) 2 none none stopped-IsWriter (omega arith) refl (omega arith) (omega arith)

-- The READY is sent, and the ACCEPT is to come.
abbrev awaiting : Writer toy
awaiting = record (writer_defaults toy toy_protobuf) {
  state = WriterState.reading_accept;
  output = empty;
  input = empty;
  bidirectional = true;
}

pop-fault_example :
    pop toy toy_protobuf toy_alloc awaiting (0 ∷ []) 1 (some (2 ∷ [])) (some 1) ≡ fault assertion
unfolding writer_defaults
pop-fault_example =
    pop-fault toy toy_protobuf toy_alloc awaiting (0 ∷ []) 1 (2 ∷ []) 1 (inl refl) tt empty-IsInput
      refl (omega arith) (omega arith) (omega arith) (omega arith)
