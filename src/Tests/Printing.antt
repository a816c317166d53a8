-- ===== src/Tests/Printing.antt =====
-- The theorems about examples/create_dnstap.c and examples/print_dnstap.c at concrete inputs.
use dnswire.Prelude.{◌≡◌, refl, true, false, inr, [], ◌∷◌, some, replicate}
use dnswire.Exec.{fault, dangling, Ensures}
use dnswire.Dnstap.{
  initializer, encode_protobuf_size, encode_protobuf, decode_protobuf, root_alive, message_alive,
  is_alive,
}
use dnswire.Trace.{buf_size}
use dnswire.Create.{Inputs, create_dnstap}
use dnswire.Create.Made.{Created, create_dnstap_lem, encode-create_dnstap}
use dnswire.Print.Message.{Out, print_dnstap}
use dnswire.Print.Steps.{Fits}
use dnswire.Print.Safe.{print-decode_protobuf}
use dnswire.Tests.Messages.{plain, plain-IsInitial}
use dnswire.Tests.Toy.{toy_protobuf}

abbrev pub inputs : Inputs
inputs = record {
  identity = b'w' ∷ [];
  version = b'1' ∷ [];
  query_address = some (127 ∷ 0 ∷ 0 ∷ 1 ∷ []);
  query_time = record { tv_sec = 1700000000; tv_nsec = 5 };
  response_address = some (127 ∷ 0 ∷ 0 ∷ 1 ∷ []);
  response_time = record { tv_sec = 1700000000; tv_nsec = 6 };
  placeholder = b'd' ∷ [];
}

create_dnstap_lem_example : Created plain inputs
create_dnstap_lem_example = create_dnstap_lem plain inputs plain-IsInitial

encode-create_dnstap_example :
    (encode_protobuf_size plain (create_dnstap plain inputs) ≡ fault dangling)
    × (encode_protobuf plain (create_dnstap plain inputs) ≡ fault dangling)
encode-create_dnstap_example = encode-create_dnstap plain inputs

abbrev out : Out
out = record { buf = replicate buf_size 0; lines = [] }

print-decode_protobuf_example :
    Ensures
      (λ r. (r.0 ≡ false) × Ensures Fits (print_dnstap (λ c. true) (λ b. b) r.1 out))
      (decode_protobuf toy_protobuf (initializer toy_protobuf) (5 ∷ []))
unfolding initializer root_alive message_alive is_alive
print-decode_protobuf_example =
    print-decode_protobuf (λ c. true) (λ b. b) toy_protobuf (initializer toy_protobuf) (5 ∷ []) _
      out refl refl (inr refl) refl refl refl
