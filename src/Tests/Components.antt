-- ===== src/Tests/Components.antt =====
-- The theorems about the buffers, the encoder and the decoder at concrete inputs, and test runs.
use dnswire.Prelude.{◌≡◌, refl, [], ◌∷◌, none, some, arith}
use dnswire.Exec.{ret, Ensures}
use dnswire.Result.{again}
use dnswire.Buffer.{Buffer, fill, make_room}
use dnswire.Buffer.Valid.{IsInput, IsOutput, unsent}
use dnswire.Buffer.Fill.{Filled, fill_lem}
use dnswire.Buffer.Room.{RoomyOr, make_room_lem}
use dnswire.Dnstap.{initializer, decode_protobuf}
use dnswire.Dnstap.Decoded.{DecodedAs, decode_protobuf_lem}
use dnswire.Decoder.{Decoder, DecoderState, decode, decoder_initializer}
use dnswire.Decoder.Contract.{Decoded, decode_contract}
use dnswire.Decoder.Paths.{Step, decode-Step}
use dnswire.Encoder.{encode, encoder_initializer}
use dnswire.Encoder.Contract.{Encoded, encode_contract}
use dnswire.Encoder.Loop.{encoding}
use dnswire.Encoder.Loop.Ends.{Grown, encoding_lem}
use dnswire.Tests.Toy.{toy, toy_laws, toy_protobuf, toy_protobuf_laws, toy_alloc, toy_alloc_laws}

-- Two bytes wait in a block of four.
abbrev pub waiting : Buffer
waiting = record { buf = some (0 ∷ 8 ∷ 9 ∷ 0 ∷ []); size = 4; inc = 4; max = 8; at = 1; left = 2 }

-- The last byte of three is still to be sent.
abbrev pub sending : Buffer
sending = record { buf = some (6 ∷ 7 ∷ 8 ∷ 0 ∷ []); size = 4; inc = 4; max = 8; at = 3; left = 1 }

abbrev pub empty : Buffer
empty = record { buf = some (0 ∷ 0 ∷ 0 ∷ 0 ∷ []); size = 4; inc = 4; max = 8; at = 0; left = 0 }

pub waiting-IsInput : IsInput waiting
waiting-IsInput = ground arith

pub sending-IsOutput : IsOutput sending
sending-IsOutput = ground arith

pub empty-IsInput : IsInput empty
empty-IsInput = ground arith

pub empty-IsOutput : IsOutput empty
empty-IsOutput = ground arith

fill_run :
    fill waiting (5 ∷ 6 ∷ [])
    ≡ ret (1, record waiting { buf = some (0 ∷ 8 ∷ 9 ∷ 5 ∷ []); left = 3 })
unfolding fill
fill_run = refl

fill_lem_example : Ensures (Filled waiting (5 ∷ 6 ∷ [])) (fill waiting (5 ∷ 6 ∷ []))
fill_lem_example = fill_lem waiting (5 ∷ 6 ∷ []) waiting-IsInput (omega arith)

make_room_lem_example : Ensures (RoomyOr waiting) (make_room toy_alloc waiting)
make_room_lem_example = make_room_lem toy_alloc waiting toy_alloc_laws waiting-IsInput

decode_protobuf_lem_example :
    Ensures
      (DecodedAs (toy_protobuf.unpack (9 ∷ [])) (initializer toy_protobuf))
      (decode_protobuf toy_protobuf (initializer toy_protobuf) (9 ∷ []))
unfolding initializer
decode_protobuf_lem_example =
    decode_protobuf_lem toy_protobuf (initializer toy_protobuf) (9 ∷ []) refl

abbrev pub in_frames : Decoder toy
in_frames = record (decoder_initializer toy toy_protobuf) { state = DecoderState.reading_frames }

decode_contract_example : Ensures (Decoded toy 2) (decode toy toy_protobuf in_frames (5 ∷ 6 ∷ []))
decode_contract_example =
    decode_contract toy toy_protobuf in_frames (5 ∷ 6 ∷ []) toy_laws (omega arith)

decode-Step_example : Step DecoderState.reading_control again DecoderState.checking_start
unfolding decode decoder_initializer
decode-Step_example =
    decode-Step toy toy_protobuf (decoder_initializer toy toy_protobuf) (3 ∷ []) refl

encode_contract_example :
    Ensures
      (Encoded toy (encoder_initializer toy) 3)
      (encode toy toy_protobuf (encoder_initializer toy) 3)
unfolding encoder_initializer
encode_contract_example =
    encode_contract toy toy_laws toy_protobuf toy_protobuf_laws (encoder_initializer toy) 3
      (omega arith) tt

encoding_lem_example :
    Ensures
      (Grown toy toy_protobuf (encoder_initializer toy) none (unsent empty))
      (encoding toy toy_protobuf toy_alloc (encoder_initializer toy) empty)
unfolding encoder_initializer
encoding_lem_example =
    encoding_lem toy toy_protobuf toy_alloc toy_laws toy_protobuf_laws toy_alloc_laws
      (encoder_initializer toy) empty tt empty-IsOutput tt (omega arith)
