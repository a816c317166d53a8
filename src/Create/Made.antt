-- ===== src/Create/Made.antt =====
-- The message that `create_dnstap` of examples/create_dnstap.c returns.
use dnswire.Prelude.{◌%◌, ◌^◌, ◌≡◌, true, Option, none, some, arith}
use dnswire.Exec.{fault, dangling, Bytes}
use dnswire.Dnstap.{
  null, outside, Span, lasting, gone, Protobuf, linked, is_known, is_null, message_at, policy_at,
  encode_protobuf, encode_protobuf_size,
}
use dnswire.Dnstap.Built.{IsInitial}
use dnswire.Create.{Inputs, create_dnstap, left}

-- Where the address of an array on the stack is stored in a field, the array is gone.
abbrev pub address_left : Option Bytes → Option Span → Option Span
address_left none o = left o
address_left (some a) o = some gone

-- What the struct holds: a message pointer that leads nowhere, who made it, a query of a tool over UDP and IPv4, the ports, the times that
-- the clock gave and the placeholder for both messages.
abbrev pub Created : Protobuf → Inputs → Type 0
Created pb i =
    let d = create_dnstap pb i in
    let m = d.message.fields in
    (d.dnstap.type ≡ 1)
    × (d.message.type ≡ 11)
    × (d.message.has_socket_family ≡ true)
    × (d.message.socket_family ≡ 1)
    × (d.message.has_socket_protocol ≡ true)
    × (d.message.socket_protocol ≡ 1)
    × (d.dnstap.message ≡ outside)
    × (d.unpacked_dnstap ≡ none)
    × (d.message.policy ≡ null)
    × (d.dnstap.fields.identity ≡ some (lasting i.identity))
    × (d.dnstap.fields.version ≡ some (lasting i.version))
    × (m.query_port ≡ some 12345)
    × (m.response_port ≡ some 53)
    × (m.query_time_sec ≡ some (i.query_time.tv_sec % 2 ^ 64))
    × (m.query_time_nsec ≡ some (i.query_time.tv_nsec % 2 ^ 32))
    × (m.response_time_sec ≡ some (i.response_time.tv_sec % 2 ^ 64))
    × (m.response_time_nsec ≡ some (i.response_time.tv_nsec % 2 ^ 32))
    × (m.query_message ≡ some (lasting i.placeholder))
    × (m.response_message ≡ some (lasting i.placeholder))
    × (m.query_address ≡ address_left i.query_address pb.message_init.fields.query_address)
    × (m.response_address ≡ address_left i.response_address pb.message_init.fields.response_address)

module _ (pb : Protobuf) (i : Inputs) where
  -- If the generated code starts with known enums, no flags without a value, no pointers and no
  -- fields of bytes that are gone, then the struct that `create_dnstap` returns has a message
  -- pointer, which leads out of it to nothing that is still there, and no policy. It has the type
  -- MESSAGE, and its own copy of the message has the type TOOL_QUERY, INET and UDP with their
  -- flags, the two ports, the times of the clock cut to their width, and the placeholder for both
  -- messages; the identity and the version are set. Each address field is set, to an array that is
  -- gone, exactly if `inet_pton` gave the address, and else keeps its initial value.
  pub create_dnstap_lem : IsInitial pb → Created pb i
  unfolding create_dnstap linked is_null message_at policy_at is_known
  create_dnstap_lem h = ground (arith, h.no_policy)

  -- Whatever `inet_pton` and the clock gave and however the generated code starts,
  -- `dnstap_encode_protobuf_size` and `dnstap_encode_protobuf` on the struct that `create_dnstap`
  -- returned follow its message pointer, which leads into a variable of a function that has
  -- returned.
  pub encode-create_dnstap :
      (encode_protobuf_size pb (create_dnstap pb i) ≡ fault dangling)
      × (encode_protobuf pb (create_dnstap pb i) ≡ fault dangling)
  unfolding encode_protobuf encode_protobuf_size create_dnstap linked is_null message_at is_known
  encode-create_dnstap = ground arith
