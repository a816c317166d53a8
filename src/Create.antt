-- ===== src/Create.antt =====
-- `create_dnstap` of examples/create_dnstap.c, which makes the message that the examples send.
pub mod Made
use dnswire.Prelude.{ℕ, Option, none, some, map}
use Prim.Native.String.{String}
use dnswire.Exec.{Bytes}
use dnswire.Dnstap.{
  Pointer, own, outside, Span, lasting, local, gone, RootFields, MessageFields, Dnstap, Protobuf,
  initializer,
}
use dnswire.Dnstap.Set.{
  set_type, message_set_type, message_set_socket_family, message_set_socket_protocol,
}
use dnswire.Dnstap.Fields.{
  in_root, in_message, set_identity, set_version, message_set_query_address,
  message_set_response_address, message_set_query_port, message_set_response_port,
  message_set_query_time_sec, message_set_query_time_nsec, message_set_response_time_sec,
  message_set_response_time_nsec, message_set_query_message, message_set_response_message,
}

-- A `struct timespec` that `clock_gettime` fills.
pub record Timespec : Type 0 where
  pub tv_sec : ℕ
  pub tv_nsec : ℕ

-- What the function is given: `identity`, the version of the library, the two results of
-- `inet_pton`, `none` where it fails, the two of `clock_gettime`, and the placeholder.
pub record Inputs : Type 0 where
  pub identity : Bytes
  pub version : Bytes
  pub query_address : Option Bytes
  pub query_time : Timespec
  pub response_address : Option Bytes
  pub response_time : Timespec
  pub placeholder : Bytes

-- Up to the socket protocol.
unfoldable pub with_header : Protobuf → Inputs → Dnstap
unfolding initializer set_identity set_version set_type message_set_type message_set_socket_family
    message_set_socket_protocol
with_header pb i =
    let a = set_identity (initializer pb) (lasting i.identity) in
    let b = set_version a (lasting i.version) in
    let c = message_set_type (set_type b 1) 11 in
    message_set_socket_protocol (message_set_socket_family c 1) 1

-- The address is in an array on the stack of the function.
unfoldable pub with_query : Inputs → Dnstap → Dnstap
unfolding message_set_query_address message_set_query_port message_set_query_time_sec
    message_set_query_time_nsec
with_query i d =
    let a : Dnstap = elim i.query_address [
      | none ↦ d
      | some q ↦ message_set_query_address d (local q)
    ] in
    let b = message_set_query_port a 12345 in
    let c = message_set_query_time_sec b i.query_time.tv_sec in
    message_set_query_time_nsec c i.query_time.tv_nsec

unfoldable pub with_response : Inputs → Dnstap → Dnstap
unfolding message_set_response_address message_set_response_port message_set_response_time_sec
    message_set_response_time_nsec
with_response i d =
    let a : Dnstap = elim i.response_address [
      | none ↦ d
      | some q ↦ message_set_response_address d (local q)
    ] in
    let b = message_set_response_port a 53 in
    let c = message_set_response_time_sec b i.response_time.tv_sec in
    message_set_response_time_nsec c i.response_time.tv_nsec

-- The variables of a function are gone when it returns.
abbrev pub left_span : Span → Span
left_span (local b) = gone
left_span s = s

abbrev pub left : Option Span → Option Span
left none = none
left (some s) = some (left_span s)

abbrev pub root_left : RootFields → RootFields
root_left f = record { identity = left f.identity; version = left f.version; extra = left f.extra }

abbrev pub message_left : MessageFields → MessageFields
message_left f = record f {
  query_address = left f.query_address;
  response_address = left f.response_address;
  query_message = left f.query_message;
  query_zone = left f.query_zone;
  response_message = left f.response_message;
}

-- The struct is returned by value: a pointer into the variable of the function leads nowhere.
abbrev pub left_pointer : Pointer → Pointer
left_pointer own = outside
left_pointer p = p

-- What the caller gets of the struct when the function returns.
unfoldable pub returned : Dnstap → Dnstap
returned d = record d {
  dnstap = record (d.dnstap) {
    message = left_pointer (d.dnstap.message);
    fields = root_left (d.dnstap.fields);
  };
  message = record (d.message) {
    policy = left_pointer (d.message.policy);
    fields = message_left (d.message.fields);
  };
}

unfoldable pub create_dnstap : Protobuf → Inputs → Dnstap
unfolding with_header with_query with_response message_set_query_message
    message_set_response_message returned
create_dnstap pb i =
    let d = with_response i (with_query i (with_header pb i)) in
    let e = message_set_query_message d (lasting i.placeholder) in
    returned (message_set_response_message e (lasting i.placeholder))
