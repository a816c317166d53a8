-- ===== src/Tests/Clients.antt =====
-- The theorems about examples/client_receiver_uv.c at concrete inputs, and tests of its loop.
use dnswire.Prelude.{ℕ, ◌<◌, ◌≡◌, refl, true, false, [], ◌∷◌, ◌++◌, drop, arith}
use dnswire.Exec.{Bytes, Ensures}
use dnswire.Reader.{Reader, init, reader_defaults, set_allow_bidirectional}
use dnswire.Tinyframe.{Tinyframe}
use dnswire.Buffer.{defaults, fill, window, rewind, consume}
use dnswire.Decoder.{decode, decoded}
use dnswire.Reader.Push.{push, push_in, fill_control}
use dnswire.Reader.Decode.{decode_control, decode_input, on_control, past}
use dnswire.Buffer.Valid.{unread}
use dnswire.Decoder.Progress.{Advances}
use dnswire.ClientReceiver.{got, client_read}
use dnswire.ClientReceiver.Steps.{IsListening}
use dnswire.ClientReceiver.Ends.{Kept, client_read_lem}
use dnswire.ClientReceiver.Waits.{AtMost, client_read-AtMost}
use dnswire.ClientReceiver.Heard.{Heard, ready, Heard-IsListening}
use dnswire.Tests.Toy.{toy, toy_laws, toy_protobuf, toy_protobuf_laws, toy_alloc, toy_alloc_laws}

part_lt : (r : ℕ) (src : Bytes) → dnswire.Tinyframe.is_part (toy.read r src).0 ≡ true → 0 < 1
part_lt r src h = omega arith

pub toy_Advances : Advances toy
toy_Advances = record { part_lt = part_lt }

-- The reader that `main` makes.
abbrev fresh : Reader toy
fresh = (set_allow_bidirectional toy toy_alloc (init toy toy_protobuf toy_alloc).1 false).1

fresh-Heard : Heard toy toy_protobuf [] fresh
unfolding init reader_defaults
fresh-Heard = ready toy_alloc fresh toy_alloc_laws refl refl

-- A START with its content type, and two frames.
abbrev chunk : Bytes
chunk = 3 ∷ 4 ∷ 5 ∷ 5 ∷ []

Heard-IsListening_example : IsListening toy fresh × ((i : ℕ) × (unread fresh.input ≡ drop i []))
Heard-IsListening_example =
    Heard-IsListening toy toy_protobuf [] fresh toy_laws toy_Advances toy_protobuf_laws fresh-Heard

client_read_lem_example :
    Ensures
      (Kept toy (unread fresh.input ++ chunk))
      (client_read toy toy_protobuf toy_alloc (got chunk) fresh)
client_read_lem_example =
    client_read_lem toy toy_protobuf toy_alloc toy_laws toy_Advances toy_protobuf_laws
      toy_alloc_laws chunk fresh
      (Heard-IsListening toy toy_protobuf [] fresh toy_laws toy_Advances toy_protobuf_laws
        fresh-Heard).0
      (omega arith)

client_read-AtMost_example :
    Ensures (AtMost toy 1) (client_read toy toy_protobuf toy_alloc (got chunk) fresh)
unfolding set_allow_bidirectional init reader_defaults defaults
client_read-AtMost_example =
    client_read-AtMost toy toy_protobuf toy_alloc chunk fresh toy_laws toy_Advances
      toy_protobuf_laws toy_alloc_laws
      (Heard-IsListening toy toy_protobuf [] fresh toy_laws toy_Advances toy_protobuf_laws
        fresh-Heard).0
      refl (omega arith) (omega arith)

-- Two whole frames have arrived, and none is printed.
waits :
    Ensures
      (λ y. (y.printed ≡ []) × (unread y.reader.input ≡ 4 ∷ 5 ∷ 5 ∷ []))
      (client_read toy toy_protobuf toy_alloc (got chunk) fresh)
unfolding client_read set_allow_bidirectional init reader_defaults defaults push push_in
    fill_control fill decode_control decode_input window decode on_control past rewind consume
    decoded
waits = (refl, refl)
