-- ===== src/Dnstap/Fields.antt =====
-- The setters of plain fields, which src/gen-macros.sh writes for each line of src/dnstap.fields:
-- they store the pointer and the length, or the number, and set the flag.
use dnswire.Prelude.{ℕ, ◌%◌, ◌^◌, some}
use dnswire.Dnstap.{Span, RootFields, MessageFields, Dnstap}

-- A change of the plain fields of the two structs.
abbrev pub in_root : (RootFields → RootFields) → Dnstap → Dnstap
in_root f d = record d { dnstap = record (d.dnstap) { fields = f d.dnstap.fields } }

abbrev pub in_message : (MessageFields → MessageFields) → Dnstap → Dnstap
in_message f d = record d { message = record (d.message) { fields = f d.message.fields } }

unfoldable pub set_identity : Dnstap → Span → Dnstap
set_identity d v = in_root (λ f. record f { identity = some v }) d

unfoldable pub set_version : Dnstap → Span → Dnstap
set_version d v = in_root (λ f. record f { version = some v }) d

unfoldable pub set_extra : Dnstap → Span → Dnstap
set_extra d v = in_root (λ f. record f { extra = some v }) d

unfoldable pub message_set_query_address : Dnstap → Span → Dnstap
message_set_query_address d v = in_message (λ f. record f { query_address = some v }) d

unfoldable pub message_set_response_address : Dnstap → Span → Dnstap
message_set_response_address d v = in_message (λ f. record f { response_address = some v }) d

-- The ports and the nanoseconds are of the type uint32_t, the seconds of uint64_t.
unfoldable pub message_set_query_port : Dnstap → ℕ → Dnstap
message_set_query_port d v = in_message (λ f. record f { query_port = some (v % 2 ^ 32) }) d

unfoldable pub message_set_response_port : Dnstap → ℕ → Dnstap
message_set_response_port d v = in_message (λ f. record f { response_port = some (v % 2 ^ 32) }) d

unfoldable pub message_set_query_time_sec : Dnstap → ℕ → Dnstap
message_set_query_time_sec d v = in_message (λ f. record f { query_time_sec = some (v % 2 ^ 64) }) d

unfoldable pub message_set_query_time_nsec : Dnstap → ℕ → Dnstap
message_set_query_time_nsec d v =
    in_message (λ f. record f { query_time_nsec = some (v % 2 ^ 32) }) d

unfoldable pub message_set_response_time_sec : Dnstap → ℕ → Dnstap
message_set_response_time_sec d v =
    in_message (λ f. record f { response_time_sec = some (v % 2 ^ 64) }) d

unfoldable pub message_set_response_time_nsec : Dnstap → ℕ → Dnstap
message_set_response_time_nsec d v =
    in_message (λ f. record f { response_time_nsec = some (v % 2 ^ 32) }) d

unfoldable pub message_set_query_message : Dnstap → Span → Dnstap
message_set_query_message d v = in_message (λ f. record f { query_message = some v }) d

unfoldable pub message_set_query_zone : Dnstap → Span → Dnstap
message_set_query_zone d v = in_message (λ f. record f { query_zone = some v }) d

unfoldable pub message_set_response_message : Dnstap → Span → Dnstap
message_set_response_message d v = in_message (λ f. record f { response_message = some v }) d
