-- ===== src/Dnstap/Set.antt =====
-- The setters of src/dnswire/dnstap.h, which are macros there, and what they have in common with
-- the clean-up of decoded data.
use dnswire.Prelude.{ℕ, Bool, true, false, not, none, some, if◌then◌else◌}
use dnswire.Exec.{Exec, ret, fault, null_pointer, dangling, ◌>>=◌}
use dnswire.Dnstap.{
  null, own, outside, Dnstap, is_known, is_null, last_type, last_socket_family, last_policy_action,
  last_policy_match, message_at,
}

unfoldable pub set_type : Dnstap → ℕ → Dnstap
unfolding is_known
set_type d v =
    if is_known last_type v
    then record d { dnstap = record (d.dnstap) { type = v; message = own } }
    else record d { dnstap = record (d.dnstap) { type = 0; message = null } }

unfoldable pub has_message : Dnstap → Bool
unfolding is_null
has_message d = not (is_null d.dnstap.message)

-- The cases of this switch end at DNSTAP_MESSAGE_TYPE_TOOL_RESPONSE.
unfoldable pub message_set_type : Dnstap → ℕ → Dnstap
unfolding is_known
message_set_type d v =
    let w = if is_known 12 v then v else 0 in record d { message = record (d.message) { type = w } }

unfoldable pub message_set_socket_family : Dnstap → ℕ → Dnstap
unfolding is_known
message_set_socket_family d v =
    if is_known last_socket_family v
    then record d { message = record (d.message) { has_socket_family = true; socket_family = v } }
    else record d { message = record (d.message) { has_socket_family = false; socket_family = 0 } }

-- The cases of this switch are DNSTAP_SOCKET_PROTOCOL_UDP and DNSTAP_SOCKET_PROTOCOL_TCP.
unfoldable pub message_set_socket_protocol : Dnstap → ℕ → Dnstap
unfolding is_known
message_set_socket_protocol d v =
    if is_known 2 v
    then record d {
      message = record (d.message) { has_socket_protocol = true; socket_protocol = v };
    }
    else record d {
      message = record (d.message) { has_socket_protocol = false; socket_protocol = 0 };
    }

-- `(d).dnstap.message->policy`
unfoldable pub message_has_policy : Dnstap → Exec Bool
unfolding message_at is_null
message_has_policy d = do m ← message_at d d.dnstap.message; ret (not (is_null m.policy))

-- A store through `(d).dnstap.message`.
unfoldable pub message_use_policy : Dnstap → Exec Dnstap
message_use_policy d = elim (d.dnstap.message) [
  | null ↦ fault null_pointer
  | own ↦ ret (record d { message = record (d.message) { policy = own } })
  | outside ↦ elim (d.unpacked_dnstap) [
    | none ↦ fault dangling
    | some u ↦ ret (record d {
      unpacked_dnstap = some (record u { message = record (u.message) { policy = own } });
    })
  ]
]

unfoldable pub message_policy_set_action : Dnstap → ℕ → Dnstap
unfolding is_known
message_policy_set_action d v =
    if is_known last_policy_action v
    then record d { policy = record (d.policy) { has_action = true; action = v } }
    else record d { policy = record (d.policy) { has_action = false; action = 0 } }

unfoldable pub message_policy_set_match : Dnstap → ℕ → Dnstap
unfolding is_known
message_policy_set_match d v =
    if is_known last_policy_match v
    then record d { policy = record (d.policy) { has_match = true; match = v } }
    else record d { policy = record (d.policy) { has_match = false; match = 0 } }
