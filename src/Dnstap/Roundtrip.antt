-- ===== src/Dnstap/Roundtrip.antt =====
-- `dnstap_encode_protobuf` and then `dnstap_decode_protobuf`, both of src/dnstap.c.
use dnswire.Prelude.{
  ◌≤◌, ◌≡◌, refl, subst, Bool, true, false, Option, none, some, if◌then◌else◌, arith, inl, inr,
  Bool-cases,
}
use dnswire.Exec.{Ensures}
use dnswire.Exec.Rules.{Ensures-mono}
use dnswire.Dnstap.{
  null, outside, Root, Policy, Message, Unpacked, Dnstap, Protobuf, initializer, is_known, is_null,
  last_type, encode_protobuf, decode_protobuf, clean_message, clean_policy,
}
use dnswire.Dnstap.Decoded.{
  IsCleanMessage, IsCleanPolicy, Cleaned, CleanedAs, clean_message-IsCleanMessage,
  decode_protobuf-CleanedAs,
}
use dnswire.Dnstap.Built.{
  IsInitial, IsBuilt, met, Built, Built-IsBuilt, linked-IsBuilt, all_alive-IsBuilt,
}

-- The same type and flags, and the same value where a flag is set.
pub record AgreeMessage (m n : Message) : Type 0 where
  pub type : n.type ≡ m.type
  pub family_flag : n.has_socket_family ≡ m.has_socket_family
  pub family : m.has_socket_family ≡ true → n.socket_family ≡ m.socket_family
  pub protocol_flag : n.has_socket_protocol ≡ m.has_socket_protocol
  pub protocol : m.has_socket_protocol ≡ true → n.socket_protocol ≡ m.socket_protocol

pub record AgreePolicy (p q : Policy) : Type 0 where
  pub action_flag : q.has_action ≡ p.has_action
  pub action : p.has_action ≡ true → q.action ≡ p.action
  pub match_flag : q.has_match ≡ p.has_match
  pub match : p.has_match ≡ true → q.match ≡ p.match

-- What was packed is found again.
abbrev pub RestoredPolicy : Option Policy → Unpacked → Type 0
RestoredPolicy none u = u.message.policy ≡ null
RestoredPolicy (some p) u = (u.message.policy ≡ outside) × AgreePolicy p u.policy

abbrev pub Restored : Option (Message × Option Policy) → Unpacked → Type 0
Restored none u = u.dnstap.message ≡ null
Restored (some (m, p)) u =
    (u.dnstap.message ≡ outside) × AgreeMessage m u.message × RestoredPolicy p u

abbrev pub IsClean : Option (Message × Option Policy) → Type 0
IsClean none = Unit
IsClean (some (m, none)) = IsCleanMessage m
IsClean (some (m, some p)) = IsCleanMessage m × IsCleanPolicy p

-- Packed bytes are unpacked to what was packed, where the enums are values of dnstap.proto or
-- UNKNOWN.
pub record Unpacks (pb : Protobuf) : Type 0 where
  pub unpacks :
      (r : Root) (m : Option (Message × Option Policy))
      → r.type ≤ last_type
      → IsClean m
      → (u : Unpacked) × (pb.unpack (pb.pack r m) ≡ some u)
        × (u.dnstap.type ≡ r.type)
        × Restored m u

-- The clean-up does not touch what agrees with a clean message.
clean_message-Agree :
    (m n : Message) → IsCleanMessage m → AgreeMessage m n → AgreeMessage m (clean_message n)
unfolding clean_message is_known
clean_message-Agree m n c a = ground arith

clean_policy-Agree :
    (p q : Policy) → IsCleanPolicy p → AgreePolicy p q → AgreePolicy p (clean_policy q)
unfolding clean_policy is_known
clean_policy-Agree p q c a = ground arith

-- Two structs with the same type, and the same message and policy in them, if there are any.
pub record Alike (d e : Dnstap) : Type 0 where
  pub type : e.dnstap.type ≡ d.dnstap.type
  pub has_message : is_null e.dnstap.message ≡ is_null d.dnstap.message
  pub message : is_null d.dnstap.message ≡ false → AgreeMessage d.message e.message
  pub has_policy :
      is_null d.dnstap.message ≡ false → is_null e.message.policy ≡ is_null d.message.policy
  pub policy :
      is_null d.dnstap.message ≡ false
      → is_null d.message.policy ≡ false
      → AgreePolicy d.policy e.policy

met-IsClean : (d : Dnstap) → IsBuilt d → IsClean (met d)
unfolding is_null
met-IsClean d b = ground (arith, b.clean_message, b.clean_policy)

Restored-message :
    (b : Bool) (x : Message × Option Policy) (u : Unpacked)
    → Restored (if b then none else some x) u
    → (b ≡ true → u.dnstap.message ≡ null) × (b ≡ false → Restored (some x) u)
Restored-message true x u s = (λ h. s, λ h. ground arith)
Restored-message false x u s = (λ h. ground arith, λ h. s)

Restored-policy :
    (b : Bool) (p : Policy) (u : Unpacked)
    → RestoredPolicy (if b then none else some p) u
    → (b ≡ true → u.message.policy ≡ null) × (b ≡ false → RestoredPolicy (some p) u)
Restored-policy true p u s = (λ h. s, λ h. ground arith)
Restored-policy false p u s = (λ h. ground arith, λ h. s)

Alike_lem :
    (d : Dnstap) (u : Unpacked) (r : Bool × Dnstap)
    → IsBuilt d
    → u.dnstap.type ≡ d.dnstap.type
    → Restored (met d) u
    → Cleaned u r
    → Alike d r.1
unfolding is_null
Alike_lem d u r b t s c =
    let n = is_null d.message.policy in
    let (f, g) =
      Restored-message (is_null d.dnstap.message) (d.message, if n then none else some d.policy) u
        s in
    elim (Bool-cases (is_null d.dnstap.message)) [
      | inl e ↦ let z = f e in ground (arith, t, c.type, b.known_type)
      | inr e ↦
          let z = g e in
          let (k, l) = Restored-policy n d.policy u z.2 in
          let a = clean_message-Agree d.message u.message b.clean_message z.1 in
          elim (Bool-cases n) [
            | inl o ↦ let y = k o in ground (arith, a, clean_message-IsCleanMessage u.message)
            | inr o ↦
                let y = l o in
                let v = clean_policy-Agree d.policy u.policy b.clean_policy y.1 in
                ground (arith, a, v, clean_message-IsCleanMessage u.message)
          ]
    ]

module _ (pb : Protobuf) (init : IsInitial pb) (laws : Unpacks pb) where
  decode-pack :
      (d : Dnstap)
      → IsBuilt d
      → Ensures
          (λ r. (r.0 ≡ false) × Alike d r.1)
          (decode_protobuf pb (initializer pb) (pb.pack d.dnstap (met d)))
  unfolding initializer
  decode-pack d b =
      let (u, e, t, s) = laws.unpacks d.dnstap (met d) b.known_type (met-IsClean d b) in
      Ensures-mono (CleanedAs (pb.unpack (pb.pack d.dnstap (met d))) (initializer pb)) _ _
        (decode_protobuf-CleanedAs pb (initializer pb) (pb.pack d.dnstap (met d)) refl)
        λ r c.
          let k = subst (λ o. CleanedAs o (initializer pb) r) e c in
          (k.accepted, Alike_lem d u r b t s k)

  -- The generated code starts with known enums, no flags without a value, no pointers and no
  -- fields of bytes that are gone, and protobuf-c unpacks what it packed. Then for a struct that
  -- is made by the initializer and the setters, where every field of bytes that was set is still
  -- there, and that was not copied out of the function that made it, encoding returns bytes, and
  -- decoding these into a new struct returns 0: the two have the same type, a message in both or
  -- in neither, likewise a policy, the same type of message, the same flags for socket family,
  -- socket protocol, action and match, and the same values where these are set.
  pub decode-encode :
      (d : Dnstap)
      → Built pb d
      → Ensures
          (λ src.
            Ensures (λ r. (r.0 ≡ false) × Alike d r.1) (decode_protobuf pb (initializer pb) src))
          (encode_protobuf pb d)
  unfolding encode_protobuf
  decode-encode d h =
      let b = Built-IsBuilt pb init d h in
      rw (linked-IsBuilt d b, all_alive-IsBuilt d b) (decode-pack d b)
