-- ===== src/Dnstap.antt =====
-- `struct dnstap` of src/dnswire/dnstap.h and the functions of src/dnstap.c. The structs that
-- protobuf-c generates are modelled by the fields that this code names; `fields` are those with
-- generated accessors, which this code only copies, and `rest` stands for the others of a policy.
-- Enums are the numbers that they stand for.
pub mod Set
pub mod Fields
pub mod Built
pub mod Roundtrip
pub mod Decoded
use dnswire.Prelude.{
  ℕ, ◌≡◌, Bool, true, false, ◌&&◌, Option, none, some, length, leb, if◌then◌else◌,
}
use dnswire.Exec.{Exec, ret, fault, dangling, null_pointer, ◌>>=◌, ◌>>◌, assert, Bytes}

-- A pointer to a message or a policy: null, to the one in the same `struct dnstap`, or out of it. The
-- last leads to what `dnstap__dnstap__unpack` allocated, as long as `unpacked_dnstap` keeps that; else
-- there is nothing behind it any more.
pub data Pointer : Type 0 where
  null own outside : Pointer

-- The pointer and the length in a field of bytes: to memory that stays, to a variable of a function
-- that is running, or to one of a function that has returned.
pub data Span : Type 0 where
  lasting : Bytes → Span
  local : Bytes → Span
  gone : Span

-- A field is `none` where its flag `has_...` is not set.
pub record RootFields : Type 0 where
  pub identity : Option Span
  pub version : Option Span
  pub extra : Option Span

pub record MessageFields : Type 0 where
  pub query_address : Option Span
  pub response_address : Option Span
  pub query_port : Option ℕ
  pub response_port : Option ℕ
  pub query_time_sec : Option ℕ
  pub query_time_nsec : Option ℕ
  pub query_message : Option Span
  pub query_zone : Option Span
  pub response_time_sec : Option ℕ
  pub response_time_nsec : Option ℕ
  pub response_message : Option Span

pub record Policy : Type 0 where
  pub has_action : Bool
  pub action : ℕ
  pub has_match : Bool
  pub match : ℕ
  pub rest : Bytes

pub record Message : Type 0 where
  pub type : ℕ
  pub has_socket_family : Bool
  pub socket_family : ℕ
  pub has_socket_protocol : Bool
  pub socket_protocol : ℕ
  pub policy : Pointer
  pub fields : MessageFields

pub record Root : Type 0 where
  pub type : ℕ
  pub message : Pointer
  pub fields : RootFields

-- What `dnstap__dnstap__unpack` allocates. A message or policy that no pointer leads to is absent.
pub record Unpacked : Type 0 where
  pub dnstap : Root
  pub message : Message
  pub policy : Policy

pub record Dnstap : Type 0 where
  pub dnstap : Root
  pub message : Message
  pub policy : Policy
  pub unpacked_dnstap : Option Unpacked

-- protobuf-c and the code that it generates from dnstap.proto, with its initial values.
pub record Protobuf : Type 0 where
  pub root_init : Root
  pub message_init : Message
  pub policy_init : Policy
  pub unpack : Bytes → Option Unpacked
  pub get_packed_size : Root → Option (Message × Option Policy) → ℕ
  pub pack : Root → Option (Message × Option Policy) → Bytes

-- The size that `get_packed_size` returns is the number of bytes that `pack` stores.
pub record IsProtobuf (pb : Protobuf) : Type 0 where
  pub packed_size :
      (r : Root) (m : Option (Message × Option Policy))
      → length (pb.pack r m) ≡ pb.get_packed_size r m

-- DNSTAP_INITIALIZER
unfoldable pub initializer : Protobuf → Dnstap
initializer pb = record {
  dnstap = pb.root_init;
  message = pb.message_init;
  policy = pb.policy_init;
  unpacked_dnstap = none;
}

-- The cases of the switches: every enum counts from 0, its UNKNOWN, up to a last value.
unfoldable pub is_known : ℕ → ℕ → Bool
is_known last v = leb 1 v && leb v last

abbrev pub last_type : ℕ
last_type = 1

abbrev pub last_message_type : ℕ
last_message_type = 14

abbrev pub last_socket_family : ℕ
last_socket_family = 2

abbrev pub last_socket_protocol : ℕ
last_socket_protocol = 7

abbrev pub last_policy_action : ℕ
last_policy_action = 6

abbrev pub last_policy_match : ℕ
last_policy_match = 5

-- The message, or the policy, behind a pointer of a `struct dnstap`.
unfoldable pub message_at : Dnstap → Pointer → Exec Message
message_at d null = fault null_pointer
message_at d own = ret d.message
message_at d outside = elim d.unpacked_dnstap [ none ↦ fault dangling | some u ↦ ret u.message ]

unfoldable pub policy_at : Dnstap → Pointer → Exec Policy
policy_at d null = fault null_pointer
policy_at d own = ret d.policy
policy_at d outside = elim d.unpacked_dnstap [ none ↦ fault dangling | some u ↦ ret u.policy ]

unfoldable pub is_null : Pointer → Bool
is_null null = true
is_null _ = false

unfoldable pub clean_policy : Policy → Policy
unfolding is_known
clean_policy p =
    let a =
      if is_known last_policy_action p.action
      then p
      else record p { has_action = false; action = 0 } in
    if is_known last_policy_match a.match then a else record a { has_match = false; match = 0 }

unfoldable pub clean_message : Message → Message
unfolding is_known
clean_message m =
    let t = if is_known last_message_type m.type then m else record m { type = 0 } in
    let f =
      if is_known last_socket_family t.socket_family
      then t
      else record t { has_socket_family = false; socket_family = 0 } in
    if is_known last_socket_protocol f.socket_protocol
    then f
    else record f { has_socket_protocol = false; socket_protocol = 0 }

-- `if (dnstap->message.policy) { ... }`
unfoldable pub decode_policy : Dnstap → Exec Dnstap
decode_policy d =
    if is_null d.message.policy
    then ret d
    else do p ← policy_at d d.message.policy; ret (record d { policy = clean_policy p })

-- `if (dnstap->dnstap.message) { ... }`
unfoldable pub decode_message : Dnstap → Exec Dnstap
decode_message d = if is_null d.dnstap.message then ret d else do
  m ← message_at d d.dnstap.message
  decode_policy (record d { message = clean_message m })

-- `true` is the result 1: the bytes are no DNSTAP.
unfoldable pub decode_protobuf : Protobuf → Dnstap → Bytes → Exec (Bool × Dnstap)
unfolding is_known
decode_protobuf pb d src = do
  assert (elim d.unpacked_dnstap [ none ↦ true | some u ↦ false ])
  elim (pb.unpack src) [
    | none ↦ ret (true, d)
    | some u ↦ do
      let r = u.dnstap
      e ← decode_message (record d {
        unpacked_dnstap = some u;
        dnstap = if is_known last_type r.type then r else record r { type = 0 };
      })
      ret (false, e)
  ]

unfoldable pub cleanup : Dnstap → Dnstap
cleanup d = record d { unpacked_dnstap = none }

-- Whether the bytes of a field can be read, where it is set.
unfoldable pub is_alive : Option Span → Bool
is_alive (some gone) = false
is_alive (some (lasting b)) = true
is_alive (some (local b)) = true
is_alive none = true

unfoldable pub root_alive : RootFields → Bool
unfolding is_alive
root_alive f = is_alive f.identity && (is_alive f.version && is_alive f.extra)

unfoldable pub message_alive : MessageFields → Bool
unfolding is_alive
message_alive f =
    is_alive f.query_address
    && (is_alive f.response_address
        && (is_alive f.query_message && (is_alive f.query_zone && is_alive f.response_message)))

unfoldable pub all_alive : Root → Option (Message × Option Policy) → Bool
unfolding root_alive message_alive
all_alive r none = root_alive r.fields
all_alive r (some (m, p)) = root_alive r.fields && message_alive m.fields

abbrev pub readable : Bool → Exec (Unit {0})
readable true = ret tt
readable false = fault dangling

-- What the generated code meets when it follows the pointers.
unfoldable pub linked : Dnstap → Exec (Option (Message × Option Policy))
unfolding is_null message_at policy_at
linked d = if is_null d.dnstap.message then ret none else do
  m ← message_at d d.dnstap.message
  if is_null m.policy
      then ret (some (m, none))
      else do p ← policy_at d m.policy; ret (some (m, some p))

unfoldable pub encode_protobuf_size : Protobuf → Dnstap → Exec ℕ
unfolding linked
encode_protobuf_size pb d = do m ← linked d; ret (pb.get_packed_size d.dnstap m)

unfoldable pub encode_protobuf : Protobuf → Dnstap → Exec Bytes
unfolding linked
encode_protobuf pb d = do m ← linked d; readable (all_alive d.dnstap m); ret (pb.pack d.dnstap m)

-- `dnstap_message_clear_policy`
unfoldable pub clear_policy : Protobuf → Dnstap → Dnstap
clear_policy pb d = record d {
  message = record (d.message) { policy = null };
  policy = pb.policy_init;
}
