-- ===== src/Print/Message.antt =====
-- `print_dnstap` of examples/print_dnstap.c.
use Prim.Native.String.{String}
use dnswire.Prelude.{
  ℕ, Bool, true, false, ◌&&◌, ◌||◌, List, [], ◌∷◌, ◌++◌, Option, none, some, length, ◌==◌,
  if◌then◌else◌,
}
use dnswire.Exec.{Exec, ret, fault, out_of_bounds, dangling, ◌>>=◌, Bytes}
use dnswire.Dnstap.{Span, lasting, local, gone, Message, Dnstap}
use dnswire.Dnstap.Set.{has_message}
use dnswire.Names.{message_type_string, socket_family_string, socket_protocol_string}
use dnswire.Names.Bounds.{get_elem?}
use dnswire.Trace.Text.{c_string}
use dnswire.Print.{printable_string}

-- The arguments of a call of `printf`: a string, a name out of a table, a number, or a time.
pub data Value : Type 0 where
  text : Bytes → Value
  name : String → Value
  number : ℕ → Value
  time : ℕ → ℕ → Value

-- A call of `printf`, by the words in its format.
pub record Line : Type 0 where
  pub label : String
  pub value : Value

-- The static buffer of `printable_string`, and what was printed, in order.
pub record Out : Type 0 where
  pub buf : Bytes
  pub lines : List Line

unfoldable pub print_line : String → Value → Out → Out
print_line label v o = record o { lines = o.lines ++ (record { label = label; value = v } ∷ []) }

-- The bytes of a field.
unfoldable pub span_bytes : Span → Exec Bytes
span_bytes (lasting b) = ret b
span_bytes (local b) = ret b
span_bytes gone = fault dangling

-- `DNSTAP_..._STRING[i]`
unfoldable pub print_name : String → List String → ℕ → Out → Exec Out
unfolding print_line
print_name label table i o = elim (get_elem? table i) [
  | none ↦ fault out_of_bounds
  | some s ↦ ret (print_line label (name s) o)
]

unfoldable pub print_number : String → Option ℕ → Out → Exec Out
unfolding print_line
print_number label none o = ret o
print_number label (some n) o = ret (print_line label (number n) o)

unfoldable pub print_time : String → Option ℕ → Option ℕ → Out → Exec Out
unfolding print_line
print_time label (some s) (some n) o = ret (print_line label (time s n) o)
print_time label _ _ o = ret o

module _ (isprint : ℕ → Bool) (inet_ntop : Bytes → Bytes) where
  -- `printable_ip_address`; the text of an address is as `inet_ntop` writes it.
  unfoldable pub printable_ip_address : Bytes → Bytes
  printable_ip_address b = if length b == 4 || length b == 16 then inet_ntop b else []

  unfoldable pub print_string : String → Option Span → Out → Exec Out
  unfolding print_line span_bytes
  print_string label none o = ret o
  print_string label (some s) o = do
    src ← span_bytes s
    b ← printable_string isprint src o.buf
    ret (print_line label (text (c_string b)) (record o { buf = b }))

  unfoldable pub print_address : String → Option Span → Out → Exec Out
  unfolding print_line span_bytes printable_ip_address
  print_address label none o = ret o
  print_address label (some s) o = do
    b ← span_bytes s
    ret (print_line label (text (printable_ip_address b)) o)

  -- A message, with its length before it.
  unfoldable pub print_wire : String → String → Option Span → Out → Exec Out
  unfolding print_line span_bytes print_string
  print_wire size label none o = ret o
  print_wire size label (some s) o = do
    b ← span_bytes s
    print_string label (some s) (print_line size (number (length b)) o)

  unfoldable pub print_flagged : Bool → String → List String → ℕ → Out → Exec Out
  unfolding print_name
  print_flagged false label table i o = ret o
  print_flagged true label table i o = print_name label table i o

  -- One `if` after another.
  unfoldable pub in_order : List (Out → Exec Out) → Out → Exec Out
  in_order [] o = ret o
  in_order (p ∷ ps) o = p o >>= in_order ps

  -- The part under `dnstap_type(*d) == DNSTAP_TYPE_MESSAGE && dnstap_has_message(*d)`.
  unfoldable pub message_parts : Message → List (Out → Exec Out)
  message_parts m =
      print_name "message:\n  type" message_type_string m.type
      ∷ print_time "  query_time" m.fields.query_time_sec m.fields.query_time_nsec
      ∷ print_time "  response_time" m.fields.response_time_sec m.fields.response_time_nsec
      ∷ print_flagged m.has_socket_family "  socket_family" socket_family_string m.socket_family
      ∷ print_flagged m.has_socket_protocol "  socket_protocol" socket_protocol_string
          m.socket_protocol
      ∷ print_address "  query_address" m.fields.query_address
      ∷ print_number "  query_port" m.fields.query_port
      ∷ print_address "  response_address" m.fields.response_address
      ∷ print_number "  response_port" m.fields.response_port
      ∷ print_string "  query_zone" m.fields.query_zone
      ∷ print_wire "  query_message_length" "  query_message" m.fields.query_message
      ∷ print_wire "  response_message_length" "  response_message" m.fields.response_message
      ∷ []

  unfoldable pub print_message : Message → Out → Exec Out
  unfolding in_order message_parts
  print_message m = in_order (message_parts m)

  unfoldable pub dnstap_parts : Dnstap → List (Out → Exec Out)
  unfolding print_message
  dnstap_parts d =
      print_string "identity" d.dnstap.fields.identity
      ∷ print_string "version" d.dnstap.fields.version
      ∷ print_string "extra" d.dnstap.fields.extra
      ∷ (λ o. if d.dnstap.type == 1 && has_message d then print_message d.message o else ret o)
      ∷ []

  unfoldable pub print_dnstap : Dnstap → Out → Exec Out
  unfolding in_order dnstap_parts
  print_dnstap d = in_order (dnstap_parts d)
