-- ===== src/Dnstap/Built.antt =====
-- Structs that are made by `DNSTAP_INITIALIZER` and the setters of src/dnswire/dnstap.h.
use dnswire.Prelude.{ℕ, ◌≤◌, ◌≡◌, sym, subst, true, Option, none, some, if◌then◌else◌, arith}
use dnswire.Exec.{ret, Allows}
use dnswire.Dnstap.Fields.{in_root, in_message}
use dnswire.Dnstap.{
  RootFields, MessageFields, Pointer, null, outside, Policy, Message, Dnstap, Protobuf, initializer,
  is_null, last_type, linked, root_alive, message_alive, all_alive, message_at, policy_at,
  clear_policy,
}
use dnswire.Dnstap.Decoded.{IsCleanMessage, IsCleanPolicy}
use dnswire.Dnstap.Set.{
  set_type, message_set_type, message_set_socket_family, message_set_socket_protocol,
  message_use_policy, message_policy_set_action, message_policy_set_match,
}

-- Null, or to the message or policy of the same struct.
abbrev pub IsOwn : Pointer → Type 0
IsOwn outside = ⊥
IsOwn _ = Unit

-- The initial values that the generated code has: the enums are values of dnstap.proto, and no
-- flag and no pointer is set.
pub record IsInitial (pb : Protobuf) : Type 0 where
  pub root_type : pb.root_init.type ≤ last_type
  pub no_message : pb.root_init.message ≡ null
  pub message_init : IsCleanMessage pb.message_init
  pub no_policy : pb.message_init.policy ≡ null
  pub policy_init : IsCleanPolicy pb.policy_init
  pub alive_root : root_alive pb.root_init.fields ≡ true
  pub alive_message : message_alive pb.message_init.fields ≡ true

pub record IsBuilt (d : Dnstap) : Type 0 where
  pub known_type : d.dnstap.type ≤ last_type
  pub own_message : IsOwn d.dnstap.message
  pub own_policy : IsOwn d.message.policy
  pub clean_message : IsCleanMessage d.message
  pub clean_policy : IsCleanPolicy d.policy
  pub alive_root : root_alive d.dnstap.fields ≡ true
  pub alive_message : message_alive d.message.fields ≡ true

module _ (pb : Protobuf) where
  -- The initializer, and the setters in any order.
  pub data Built : Dnstap → Type 0 where
    initial : Built (initializer pb)
    typed : {d : Dnstap} → Built d → (v : ℕ) → Built (set_type d v)
    message_typed : {d : Dnstap} → Built d → (v : ℕ) → Built (message_set_type d v)
    family : {d : Dnstap} → Built d → (v : ℕ) → Built (message_set_socket_family d v)
    protocol : {d : Dnstap} → Built d → (v : ℕ) → Built (message_set_socket_protocol d v)
    with_policy : {d e : Dnstap} → Built d → message_use_policy d ≡ ret e → Built e
    action : {d : Dnstap} → Built d → (v : ℕ) → Built (message_policy_set_action d v)
    match : {d : Dnstap} → Built d → (v : ℕ) → Built (message_policy_set_match d v)
    root_filled :
        {d : Dnstap}
        → Built d
        → (f : RootFields → RootFields) → root_alive (f d.dnstap.fields) ≡ true
        → Built (in_root f d)
    message_filled :
        {d : Dnstap}
        → Built d
        → (f : MessageFields → MessageFields) → message_alive (f d.message.fields) ≡ true
        → Built (in_message f d)
    cleared : {d : Dnstap} → Built d → Built (clear_policy pb d)

initializer-IsBuilt : (pb : Protobuf) → IsInitial pb → IsBuilt (initializer pb)
unfolding initializer
initializer-IsBuilt pb h = record {
  known_type = h.root_type;
  own_message = subst IsOwn (sym h.no_message) tt;
  own_policy = subst IsOwn (sym h.no_policy) tt;
  clean_message = h.message_init;
  clean_policy = h.policy_init;
  alive_root = h.alive_root;
  alive_message = h.alive_message;
}

set_type-IsBuilt : (d : Dnstap) (v : ℕ) → IsBuilt d → IsBuilt (set_type d v)
unfolding set_type
set_type-IsBuilt d v b = ground arith

message_set_type-IsBuilt : (d : Dnstap) (v : ℕ) → IsBuilt d → IsBuilt (message_set_type d v)
unfolding message_set_type
message_set_type-IsBuilt d v b = ground arith

message_set_socket_family-IsBuilt :
    (d : Dnstap) (v : ℕ) → IsBuilt d → IsBuilt (message_set_socket_family d v)
unfolding message_set_socket_family
message_set_socket_family-IsBuilt d v b = ground arith

message_set_socket_protocol-IsBuilt :
    (d : Dnstap) (v : ℕ) → IsBuilt d → IsBuilt (message_set_socket_protocol d v)
unfolding message_set_socket_protocol
message_set_socket_protocol-IsBuilt d v b = ground arith

message_policy_set_action-IsBuilt :
    (d : Dnstap) (v : ℕ) → IsBuilt d → IsBuilt (message_policy_set_action d v)
unfolding message_policy_set_action
message_policy_set_action-IsBuilt d v b = ground arith

message_policy_set_match-IsBuilt :
    (d : Dnstap) (v : ℕ) → IsBuilt d → IsBuilt (message_policy_set_match d v)
unfolding message_policy_set_match
message_policy_set_match-IsBuilt d v b = ground arith

message_use_policy-IsBuilt : (d : Dnstap) → IsBuilt d → Allows IsBuilt (message_use_policy d)
unfolding message_use_policy
message_use_policy-IsBuilt d b = ground arith

clear_policy-IsBuilt :
    (pb : Protobuf) (d : Dnstap) → IsInitial pb → IsBuilt d → IsBuilt (clear_policy pb d)
unfolding clear_policy
clear_policy-IsBuilt pb d h b = ground (arith, h.policy_init)

-- The plain fields do not matter, as long as their bytes are there.
in_root-IsBuilt :
    (f : RootFields → RootFields) (d : Dnstap)
    → root_alive (f d.dnstap.fields) ≡ true
    → IsBuilt d
    → IsBuilt (in_root f d)
in_root-IsBuilt f d a b = ground arith

in_message-IsBuilt :
    (f : MessageFields → MessageFields) (d : Dnstap)
    → message_alive (f d.message.fields) ≡ true
    → IsBuilt d
    → IsBuilt (in_message f d)
in_message-IsBuilt f d a b = ground arith

module _ (pb : Protobuf) (init : IsInitial pb) where
  -- If the initial values of the generated code have known enums, no flags without a value and no
  -- pointers, then every struct that is made by the initializer and the setters, in any order, has
  -- known enums, no flag set without a value of the enum, and pointers that are null or lead to
  -- its own message and policy.
  pub Built-IsBuilt : (d : Dnstap) → Built pb d → IsBuilt d
  Built-IsBuilt _ initial = initializer-IsBuilt pb init
  Built-IsBuilt _ (typed {d} b v) = set_type-IsBuilt d v (Built-IsBuilt d b)
  Built-IsBuilt _ (message_typed {d} b v) = message_set_type-IsBuilt d v (Built-IsBuilt d b)
  Built-IsBuilt _ (family {d} b v) = message_set_socket_family-IsBuilt d v (Built-IsBuilt d b)
  Built-IsBuilt _ (protocol {d} b v) = message_set_socket_protocol-IsBuilt d v (Built-IsBuilt d b)
  Built-IsBuilt e (with_policy {d} b h) =
      subst (Allows IsBuilt) h (message_use_policy-IsBuilt d (Built-IsBuilt d b))
  Built-IsBuilt _ (action {d} b v) = message_policy_set_action-IsBuilt d v (Built-IsBuilt d b)
  Built-IsBuilt _ (match {d} b v) = message_policy_set_match-IsBuilt d v (Built-IsBuilt d b)
  Built-IsBuilt _ (root_filled {d} b f a) = in_root-IsBuilt f d a (Built-IsBuilt d b)
  Built-IsBuilt _ (message_filled {d} b f a) = in_message-IsBuilt f d a (Built-IsBuilt d b)
  Built-IsBuilt _ (cleared {d} b) = clear_policy-IsBuilt pb d init (Built-IsBuilt d b)

-- What the generated code meets: the message if there is one, with its policy if there is one.
abbrev pub met : Dnstap → Option (Message × Option Policy)
met d =
    if is_null d.dnstap.message
    then none
    else some (d.message, if is_null d.message.policy then none else some d.policy)

pub linked-IsBuilt : (d : Dnstap) → IsBuilt d → linked d ≡ ret (met d)
unfolding linked is_null message_at policy_at
linked-IsBuilt d b = ground arith

pub all_alive-IsBuilt : (d : Dnstap) → IsBuilt d → all_alive d.dnstap (met d) ≡ true
unfolding all_alive
all_alive-IsBuilt d b = ground arith
