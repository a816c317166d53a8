-- ===== src/Tests/Messages.antt =====
-- The theorems about messages at concrete inputs, with a toy of protobuf-c that packs the fields
-- one after another.
use dnswire.Prelude.{
  ℕ, ◌≤◌, ◌≡◌, refl, Bool, true, false, [], ◌∷◌, Option, none, some, ◌==◌, length, arith,
}
use dnswire.Exec.{ret, Ensures, Bytes}
use dnswire.Dnstap.{
  null, own, outside, Root, Policy, Message, Unpacked, Dnstap, Protobuf, initializer,
  decode_protobuf, encode_protobuf, root_alive, message_alive,
}
use dnswire.Tests.Toy.{no_root_fields, no_message_fields}
use dnswire.Dnstap.Set.{set_type, message_set_type, message_use_policy, message_policy_set_action}
use dnswire.Dnstap.Built.{
  Built, initial, typed, message_typed, with_policy, action, IsInitial, IsBuilt, Built-IsBuilt,
}
use dnswire.Dnstap.Roundtrip.{IsClean, Restored, Unpacks, Alike, decode-encode}

abbrev bit : Bool → ℕ
bit true = 1
bit false = 0

abbrev message_init : Message
message_init = record {
  type = 1;
  has_socket_family = false;
  socket_family = 1;
  has_socket_protocol = false;
  socket_protocol = 1;
  policy = null;
  fields = no_message_fields;
}

abbrev policy_init : Policy
policy_init = record { has_action = false; action = 1; has_match = false; match = 1; rest = [] }

abbrev pack_policy : Option Policy → Bytes
pack_policy none = []
pack_policy (some p) = bit p.has_action ∷ p.action ∷ bit p.has_match ∷ p.match ∷ []

abbrev pack : Root → Option (Message × Option Policy) → Bytes
pack r none = r.type ∷ []
pack r (some (m, p)) =
    r.type
    ∷ m.type
    ∷ bit m.has_socket_family
    ∷ m.socket_family
    ∷ bit m.has_socket_protocol
    ∷ m.socket_protocol
    ∷ pack_policy p

abbrev unpack_policy : Bytes → Option Policy
unpack_policy (h ∷ a ∷ i ∷ m ∷ []) =
    some (record { has_action = h == 1; action = a; has_match = i == 1; match = m; rest = [] })
unpack_policy _ = none

abbrev with : ℕ → Message → Option Policy → Unpacked
with t m none = record {
  dnstap = record { type = t; message = outside; fields = no_root_fields };
  message = m;
  policy = policy_init;
}
with t m (some p) = record {
  dnstap = record { type = t; message = outside; fields = no_root_fields };
  message = record m { policy = outside };
  policy = p;
}

abbrev unpack : Bytes → Option Unpacked
unpack (t ∷ []) = some (record {
  dnstap = record { type = t; message = null; fields = no_root_fields };
  message = message_init;
  policy = policy_init;
})
unpack (t ∷ y ∷ h ∷ f ∷ i ∷ p ∷ bs) = some (
    with t
      (record {
        type = y;
        has_socket_family = h == 1;
        socket_family = f;
        has_socket_protocol = i == 1;
        socket_protocol = p;
        policy = null;
        fields = no_message_fields;
      })
      (unpack_policy bs))
unpack _ = none

abbrev pub plain : Protobuf
plain = record {
  root_init = record { type = 1; message = null; fields = no_root_fields };
  message_init = message_init;
  policy_init = policy_init;
  unpack = unpack;
  get_packed_size = λ r m. length (pack r m);
  pack = pack;
}

bit_lem : (b : Bool) → (bit b == 1) ≡ b
bit_lem true = refl
bit_lem false = refl

pub plain-IsInitial : IsInitial plain
unfolding root_alive message_alive
plain-IsInitial = ground arith

plain-Unpacks : Unpacks plain
plain-Unpacks = record { unpacks = go }
  where
    go :
        (r : Root) (m : Option (Message × Option Policy))
        → r.type ≤ 1
        → IsClean m
        → (u : Unpacked) × (unpack (pack r m) ≡ some u) × (u.dnstap.type ≡ r.type) × Restored m u
    go r none h c = (_, refl, refl, refl)
    go r (some (m, none)) h c = (
      _,
      refl,
      refl,
      (refl, ground (arith, bit_lem m.has_socket_family, bit_lem m.has_socket_protocol), refl),
    )
    go r (some (m, some p)) h c = (
      _,
      refl,
      refl,
      (
        refl,
        ground (arith, bit_lem m.has_socket_family, bit_lem m.has_socket_protocol),
        (refl, ground (arith, bit_lem p.has_action, bit_lem p.has_match)),
      ),
    )

-- A message with a policy, as a sender makes it.
abbrev with_type : Dnstap
with_type = message_set_type (set_type (initializer plain) 1) 12

abbrev complete : Dnstap
complete =
    message_policy_set_action
      (record with_type { message = record (with_type.message) { policy = own } }) 4

use_lem :
    message_use_policy with_type
    ≡ ret (record with_type { message = record (with_type.message) { policy = own } })
unfolding message_use_policy set_type message_set_type initializer
use_lem = refl

complete-Built : Built plain complete
complete-Built = action (with_policy (message_typed (typed initial 1) 12) use_lem) 4

Built-IsBuilt_example : IsBuilt complete
Built-IsBuilt_example = Built-IsBuilt plain plain-IsInitial complete complete-Built

decode-encode_example :
    Ensures
      (λ src.
        Ensures
          (λ r. (r.0 ≡ false) × Alike complete r.1)
          (decode_protobuf plain (initializer plain) src))
      (encode_protobuf plain complete)
decode-encode_example = decode-encode plain plain-IsInitial plain-Unpacks complete complete-Built
