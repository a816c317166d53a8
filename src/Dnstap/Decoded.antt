-- ===== src/Dnstap/Decoded.antt =====
-- What `dnstap_decode_protobuf` of src/dnstap.c leaves in the struct.
use dnswire.Prelude.{
  ℕ, ◌<◌, ◌≤◌, ◌≡◌, refl, Bool, true, false, inl, inr, Option, none, some, Option-cases,
  if◌then◌else◌, arith,
}
use dnswire.Exec.{Bytes, Ensures}
use dnswire.Exec.Rules.{Ensures-mono}
use dnswire.Dnstap.{
  outside, Policy, Message, Unpacked, Dnstap, Protobuf, is_known, is_null, last_message_type,
  last_socket_family, last_socket_protocol, last_policy_action, last_policy_match, last_type,
  message_at, policy_at, clean_policy, clean_message, decode_policy, decode_message,
  decode_protobuf,
}

-- Every enum is one of the values that dnswire knows, or its UNKNOWN, and then its flag is not set.
pub record IsCleanMessage (m : Message) : Type 0 where
  pub known_type : m.type ≤ last_message_type
  pub known_family : m.socket_family ≤ last_socket_family
  pub known_protocol : m.socket_protocol ≤ last_socket_protocol
  pub family_flag : m.has_socket_family ≡ true → 1 ≤ m.socket_family
  pub protocol_flag : m.has_socket_protocol ≡ true → 1 ≤ m.socket_protocol

pub record IsCleanPolicy (p : Policy) : Type 0 where
  pub known_action : p.action ≤ last_policy_action
  pub known_match : p.match ≤ last_policy_match
  pub action_flag : p.has_action ≡ true → 1 ≤ p.action
  pub match_flag : p.has_match ≡ true → 1 ≤ p.match

-- Whatever the enums of an unpacked message are, in the cleaned copy they are known values, and a
-- flag is set only with a value of the enum; the policy pointer and the other fields are
-- unchanged.
pub clean_message-IsCleanMessage :
    (m : Message)
    → IsCleanMessage (clean_message m)
      × ((clean_message m).policy ≡ m.policy)
      × ((clean_message m).fields ≡ m.fields)
unfolding clean_message
clean_message-IsCleanMessage m = ground arith

pub clean_policy-IsCleanPolicy :
    (p : Policy) → IsCleanPolicy (clean_policy p) × ((clean_policy p).rest ≡ p.rest)
unfolding clean_policy
clean_policy-IsCleanPolicy p = ground arith

-- An enum that is decoded: a value that dnswire knows is kept, another one is 0, its UNKNOWN.
abbrev pub Cleans : ℕ → ℕ → ℕ → Type 0
Cleans last v w = (v ≤ last → w ≡ v) × (last < v → w ≡ 0)

-- An enum with a flag: the flag is kept with a value that dnswire knows, and else it is not set.
abbrev pub CleansFlag : ℕ → ℕ → Bool → Bool → Type 0
CleansFlag last v b c = (1 ≤ v → v ≤ last → c ≡ b) × (v ≡ 0 → c ≡ false) × (last < v → c ≡ false)

-- `n` is the copy of the message `m`.
pub record CopiesMessage (m n : Message) : Type 0 where
  pub type : Cleans last_message_type m.type n.type
  pub family : Cleans last_socket_family m.socket_family n.socket_family
  pub family_flag :
      CleansFlag last_socket_family m.socket_family m.has_socket_family n.has_socket_family
  pub protocol : Cleans last_socket_protocol m.socket_protocol n.socket_protocol
  pub protocol_flag :
      CleansFlag last_socket_protocol m.socket_protocol m.has_socket_protocol n.has_socket_protocol
  pub same_policy : n.policy ≡ m.policy
  pub same_fields : n.fields ≡ m.fields

-- `q` is the copy of the policy `p`.
pub record CopiesPolicy (p q : Policy) : Type 0 where
  pub action : Cleans last_policy_action p.action q.action
  pub action_flag : CleansFlag last_policy_action p.action p.has_action q.has_action
  pub match : Cleans last_policy_match p.match q.match
  pub match_flag : CleansFlag last_policy_match p.match p.has_match q.has_match
  pub same_rest : q.rest ≡ p.rest

clean_message-CopiesMessage : (m : Message) → CopiesMessage m (clean_message m)
unfolding clean_message is_known
clean_message-CopiesMessage m = record {
  type = ground arith;
  family = ground arith;
  family_flag = ground arith;
  protocol = ground arith;
  protocol_flag = ground arith;
  same_policy = ground arith;
  same_fields = ground arith;
}

clean_policy-CopiesPolicy : (p : Policy) → CopiesPolicy p (clean_policy p)
unfolding clean_policy is_known
clean_policy-CopiesPolicy p = record {
  action = ground arith;
  action_flag = ground arith;
  match = ground arith;
  match_flag = ground arith;
  same_rest = ground arith;
}

-- What is left of the unpacked data `u`, as the code makes it.
pub record Cleaned (u : Unpacked) (r : Bool × Dnstap) : Type 0 where
  pub accepted : r.0 ≡ false
  pub kept : r.1.unpacked_dnstap ≡ some u
  pub known_type : r.1.dnstap.type ≤ last_type
  pub type : Cleans last_type u.dnstap.type r.1.dnstap.type
  pub same_fields : r.1.dnstap.fields ≡ u.dnstap.fields
  pub same_message : r.1.dnstap.message ≡ u.dnstap.message
  pub message : u.dnstap.message ≡ outside → r.1.message ≡ clean_message u.message
  pub policy :
      u.dnstap.message ≡ outside → u.message.policy ≡ outside → r.1.policy ≡ clean_policy u.policy

abbrev pub CleanedAs : Option Unpacked → Dnstap → Bool × Dnstap → Type 0
CleanedAs none d r = (r.0 ≡ true) × (r.1 ≡ d)
CleanedAs (some u) d r = Cleaned u r

-- The policy is copied from where the copied message points, if it points anywhere that is left.
decode_policy_lem :
    (d : Dnstap) (u : Unpacked)
    → d.unpacked_dnstap ≡ some u
    → Ensures
        (λ e.
          (e.unpacked_dnstap ≡ some u)
          × (e.dnstap ≡ d.dnstap)
          × (e.message ≡ d.message)
          × (d.message.policy ≡ outside → e.policy ≡ clean_policy u.policy))
        (decode_policy d)
unfolding decode_policy is_null policy_at
decode_policy_lem d u h = ground arith

decode_message_lem :
    (d : Dnstap) (u : Unpacked)
    → d.unpacked_dnstap ≡ some u
    → Ensures
        (λ e.
          (e.unpacked_dnstap ≡ some u)
          × (e.dnstap ≡ d.dnstap)
          × (d.dnstap.message ≡ outside → e.message ≡ clean_message u.message)
          × (d.dnstap.message ≡ outside
              → u.message.policy ≡ outside
              → e.policy ≡ clean_policy u.policy))
        (decode_message d)
unfolding decode_message is_null message_at
decode_message_lem d u h = ground (
  arith,
  decode_policy_lem (record d { message = clean_message d.message }) u h,
  decode_policy_lem (record d { message = clean_message u.message }) u h,
  clean_message-IsCleanMessage u.message,
)

pub decode_protobuf-CleanedAs :
    (pb : Protobuf) (d : Dnstap) (src : Bytes)
    → d.unpacked_dnstap ≡ none
    → Ensures (CleanedAs (pb.unpack src) d) (decode_protobuf pb d src)
unfolding decode_protobuf is_known
decode_protobuf-CleanedAs pb d src h = elim (Option-cases (pb.unpack src)) [
  | inl e ↦ ground arith
  | inr (u, e) ↦
      let r =
        if is_known last_type u.dnstap.type then u.dnstap else record (u.dnstap) { type = 0 } in
      ground (arith, decode_message_lem (record d { unpacked_dnstap = some u; dnstap = r }) u refl)
]

-- What is left of the unpacked data `u`: the struct keeps it, and has copies of its parts.
pub record Copied (u : Unpacked) (r : Bool × Dnstap) : Type 0 where
  pub accepted : r.0 ≡ false
  pub kept : r.1.unpacked_dnstap ≡ some u
  pub type : Cleans last_type u.dnstap.type r.1.dnstap.type
  pub same_fields : r.1.dnstap.fields ≡ u.dnstap.fields
  pub same_message : r.1.dnstap.message ≡ u.dnstap.message
  pub message : u.dnstap.message ≡ outside → CopiesMessage u.message r.1.message
  pub policy :
      u.dnstap.message ≡ outside → u.message.policy ≡ outside → CopiesPolicy u.policy r.1.policy

abbrev pub DecodedAs : Option Unpacked → Dnstap → Bool × Dnstap → Type 0
DecodedAs none d r = (r.0 ≡ true) × (r.1 ≡ d)
DecodedAs (some u) d r = Copied u r

CleanedAs-DecodedAs :
    (o : Option Unpacked) (d : Dnstap) (r : Bool × Dnstap) → CleanedAs o d r → DecodedAs o d r
CleanedAs-DecodedAs none d r c = c
CleanedAs-DecodedAs (some u) d r c = record {
  accepted = c.accepted;
  kept = c.kept;
  type = c.type;
  same_fields = c.same_fields;
  same_message = c.same_message;
  message = λ h. rw (c.message h) (clean_message-CopiesMessage u.message);
  policy = λ h k. rw (c.policy h k) (clean_policy-CopiesPolicy u.policy);
}

-- If nothing is unpacked yet, then `dnstap_decode_protobuf` returns: with 1 and the struct as it
-- was where the bytes do not unpack, else with 0 and copies, of the message and the policy where
-- there are such. In these each enum that dnswire knows is kept, with its flag, and each other one
-- is 0 with its flag not set; a flag with the value 0 is not set; the other fields are kept.
pub decode_protobuf_lem :
    (pb : Protobuf) (d : Dnstap) (src : Bytes)
    → d.unpacked_dnstap ≡ none
    → Ensures (DecodedAs (pb.unpack src) d) (decode_protobuf pb d src)
decode_protobuf_lem pb d src h =
    Ensures-mono (CleanedAs (pb.unpack src) d) (DecodedAs (pb.unpack src) d) _
      (decode_protobuf-CleanedAs pb d src h) (CleanedAs-DecodedAs (pb.unpack src) d)
