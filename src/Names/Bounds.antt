-- ===== src/Names/Bounds.antt =====
-- The enums of what `dnstap_decode_protobuf` decoded are within the tables of names of src/dnstap.c.
use Prim.Native.String.{String}
use dnswire.Prelude.{
  ℕ, ◌-◌, ◌≡◌, ◌<◌, refl, subst, Bool, false, inl, inr, Bool-cases, List, [], ◌∷◌, Option, none,
  some, length, ◌==◌, if◌then◌else◌, arith,
}
use dnswire.Exec.{Bytes, Ensures}
use dnswire.Exec.Rules.{Ensures-mono}
use dnswire.Dnstap.{
  outside, Unpacked, Dnstap, Protobuf, decode_protobuf, clean_message, clean_policy,
}
use dnswire.Dnstap.Decoded.{
  Cleaned, CleanedAs, decode_protobuf-CleanedAs, clean_message-IsCleanMessage,
  clean_policy-IsCleanPolicy,
}
use dnswire.Names.{
  type_string, message_type_string, socket_family_string, socket_protocol_string,
  policy_action_string, policy_match_string,
}

-- An entry of an array; `none` is behind its end.
unfoldable pub get_elem? {ℓ} : {A : Type ℓ} → List A → ℕ → Option A
get_elem? [] n = none
get_elem? (x ∷ xs) n = if n == 0 then some x else get_elem? xs (n - 1)

abbrev pub Has : List String → ℕ → Type 0
Has table n = (name : String) × (get_elem? table n ≡ some name)

get_elem?-Has : (table : List String) (n : ℕ) → n < length table → Has table n
unfolding get_elem?
get_elem?-Has [] n h = absurd (omega arith)
get_elem?-Has (x ∷ xs) n h = elim (Bool-cases (n == 0)) [
  | inl e ↦ rw e (x, refl)
  | inr e ↦ rw e (get_elem?-Has xs (n - 1) (ground arith))
]

-- The names of what was decoded, if the unpacked data has a message, and a policy.
pub record IsNamed (u : Unpacked) (d : Dnstap) : Type 0 where
  pub type : Has type_string d.dnstap.type
  pub message :
      u.dnstap.message ≡ outside
      → Has message_type_string d.message.type
        × Has socket_family_string d.message.socket_family
        × Has socket_protocol_string d.message.socket_protocol
  pub policy :
      u.dnstap.message ≡ outside
      → u.message.policy ≡ outside
      → Has policy_action_string d.policy.action × Has policy_match_string d.policy.match

Cleaned-IsNamed : (u : Unpacked) (r : Bool × Dnstap) → Cleaned u r → IsNamed u r.1
unfolding type_string message_type_string socket_family_string socket_protocol_string
    policy_action_string policy_match_string
Cleaned-IsNamed u r c = record {
  type = get_elem?-Has type_string r.1.dnstap.type (omega (arith, c.known_type));
  message = λ h.
      let m = (clean_message-IsCleanMessage u.message).0 in
      rw (c.message h) (
        get_elem?-Has message_type_string (clean_message u.message).type
            (omega (arith, m.known_type)),
        get_elem?-Has socket_family_string (clean_message u.message).socket_family
            (omega (arith, m.known_family)),
        get_elem?-Has socket_protocol_string (clean_message u.message).socket_protocol
            (omega (arith, m.known_protocol)),
      );
  policy = λ h k.
      let p = (clean_policy-IsCleanPolicy u.policy).0 in
      rw (c.policy h k) (
        get_elem?-Has policy_action_string (clean_policy u.policy).action
            (omega (arith, p.known_action)),
        get_elem?-Has policy_match_string (clean_policy u.policy).match
            (omega (arith, p.known_match)),
      );
}

-- If nothing is unpacked yet and the bytes unpack, `dnstap_decode_protobuf` returns 0, and the
-- type of the struct is within its table of names; so are the type, the socket family and the
-- socket protocol of the message, if the unpacked data has one, and the action and the match of
-- its policy, if that has one, whatever numbers these were.
pub decode_protobuf-IsNamed :
    (pb : Protobuf) (d : Dnstap) (src : Bytes) (u : Unpacked)
    → d.unpacked_dnstap ≡ none
    → pb.unpack src ≡ some u
    → Ensures (λ r. (r.0 ≡ false) × IsNamed u r.1) (decode_protobuf pb d src)
decode_protobuf-IsNamed pb d src u h e =
    Ensures-mono (CleanedAs (pb.unpack src) d) _ _ (decode_protobuf-CleanedAs pb d src h)
      λ r c. let k = subst (λ o. CleanedAs o d r) e c in (k.accepted, Cleaned-IsNamed u r k)
