-- ===== src/Tests/Files.antt =====
-- The theorem about the loop of examples/reader.c at a concrete input, and a test of the loop.
use Prim.Native.Nat.{min}
use dnswire.Prelude.{ℕ, ◌≤◌, ◌≡◌, refl, subst, true, [], ◌∷◌, some, length, arith}
use mathlib.Core.Option.{some-injective}
use dnswire.Exec.{Bytes, Ensures}
use dnswire.Reader.{init, reader_defaults}
use dnswire.Buffer.{free_space, copy_in, window, rewind, consume}
use dnswire.Dnstap.{
  decode_protobuf, decode_message, decode_policy, clean_message, clean_policy, is_known, is_null,
  message_at, policy_at, cleanup,
}
use dnswire.Decoder.ContentType.{is_content_type}
use dnswire.Decoder.{decode, decoded}
use dnswire.Reader.Decode.{
  decode_control, decode_data, decode_input, on_control, on_data, past, on_first_dnstap,
  on_endofdata,
}
use dnswire.Reader.Read.{read, read_in, read_control, read_data}
use dnswire.FileReader.{File, read_file, read_all}
use dnswire.FileReader.Ends.{IsFile, Finished, read_file-Finished}
use dnswire.Tests.Clients.{toy_Advances}
use dnswire.Tests.Toy.{toy, toy_laws, toy_protobuf, toy_protobuf_laws, toy_alloc, toy_alloc_laws}

-- A file that gives up to two bytes at once.
abbrev slow : File
slow = record { give = λ rest n. some (min 2 n) }

slow-fits : (rest : Bytes) (n : ℕ) {m : ℕ} → slow.give rest n ≡ some m → m ≤ n
slow-fits rest n {m} e = subst (λ k. k ≤ n) (some-injective _ _ e) (omega arith)

slow-IsFile : IsFile slow
slow-IsFile = record { give_fits = slow-fits }

-- A START with its content type, two frames and a STOP.
abbrev stream : Bytes
stream = 3 ∷ 4 ∷ 5 ∷ 5 ∷ 6 ∷ []

read_file-Finished_example :
    Ensures
      (Finished toy slow stream)
      (read_file toy toy_protobuf toy_alloc slow stream (init toy toy_protobuf toy_alloc).1)
unfolding init reader_defaults
read_file-Finished_example =
    read_file-Finished toy toy_protobuf toy_alloc toy_laws toy_Advances toy_protobuf_laws
      toy_alloc_laws slow slow-IsFile stream refl

-- Both messages are printed.
prints_both :
    Ensures
      (λ y. (length y.printed ≡ 2) × (y.stopped ≡ true) × (y.rest ≡ []))
      (read_file toy toy_protobuf toy_alloc slow stream (init toy toy_protobuf toy_alloc).1)
unfolding init reader_defaults read_file read_all read read_in read_control read_data free_space
    copy_in decode_control decode_data decode_input window decode on_control on_data past
    on_first_dnstap on_endofdata rewind consume decoded is_content_type decode_protobuf
    decode_message decode_policy clean_message clean_policy is_known is_null message_at policy_at
    cleanup
prints_both = (refl, refl, refl)
