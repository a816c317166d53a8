-- ===== src/Tests/Toy.antt =====
-- A toy tinyframe, protobuf-c and allocator that have the properties which the theorems ask for.
use dnswire.Prelude.{
  ℕ, ◌-◌, ◌≤◌, ◌≡◌, refl, subst, ◌∙◌, [], ◌∷◌, ◌++◌, Option, none, some, true, length, take,
  replicate, ◌==◌, if◌then◌else◌, arith, length-append, length-take, take-append_le, take-take,
  length-replicate,
}
use mathlib.Core.Option.{some-injective}
use dnswire.Exec.{Bytes, contents}
use dnswire.Alloc.{Allocator, IsAllocator}
use dnswire.Io.{Io, IsIo}
use dnswire.Tinyframe.{
  TinyframeResult, ok, need_more, have_control, have_control_field, have_frame, stopped, finished,
  error, Control, Field, Tinyframe, IsTinyframe,
}
use dnswire.Dnstap.{
  RootFields, MessageFields, null, outside, Policy, Message, Root, Unpacked, Protobuf, IsProtobuf,
}
use dnswire.Decoder.ContentType.{content_type}

-- Every part is one byte: 1 is a READY, 2 an ACCEPT, 3 a START, 4 a field, 5 a frame, 6 a STOP and
-- 7 a FINISH. The reader is the last byte that was read.
abbrev result_of : ℕ → TinyframeResult
result_of b =
    if b == 1
    then have_control
    else if b == 2
    then have_control
    else if b == 3
    then have_control
    else if b == 4
    then have_control_field
    else if b == 5
    then have_frame
    else if b == 6
    then stopped
    else if b == 7
    then finished
    else if b == 8
    then need_more
    else error

abbrev control_of : ℕ → Control
control_of b =
    if b == 1
    then Control.ready
    else if b == 2
    then Control.accept
    else if b == 3
    then Control.start
    else Control.unknown

abbrev toy_read : ℕ → Bytes → TinyframeResult × ℕ
toy_read r [] = (need_more, r)
toy_read r (b ∷ src) = (result_of b, b)

abbrev emit : ℕ → ℕ → Bytes → TinyframeResult × ℕ × Bytes
emit w len out =
    if length out == 0
    then (error, w, [])
    else if len == 0
    then (need_more, w, [])
    else (ok, 1, take 1 out)

abbrev pub toy : Tinyframe
toy = record {
  Reader = ℕ;
  Writer = ℕ;
  reader_initializer = 0;
  writer_initializer = 0;
  read = toy_read;
  bytes_read = λ r. 1;
  control_type = control_of;
  control_length_left = λ r. 0;
  control_field_type = λ r. Field.content_type;
  control_field_data = λ r. content_type;
  frame_data = λ r. 9 ∷ [];
  write_control = λ w len c fs. emit w len (2 ∷ []);
  write_control_start = λ w len ct. emit w len (3 ∷ []);
  write_control_stop = λ w len. emit w len (6 ∷ []);
  write_frame = λ w len f. emit w len f;
  frame_size = λ n. 1;
  bytes_wrote = λ w. 1;
}

read_within :
    (r : ℕ) (src : Bytes) → dnswire.Tinyframe.is_part (toy_read r src).0 ≡ true → 1 ≤ length src
read_within r [] h = cc
read_within r (b ∷ src) h = omega arith

emit_wrote :
    (w len : ℕ) (out : Bytes)
    → (length (emit w len out).2 ≤ len) × ((emit w len out).0 ≡ ok → 1 ≡ length (emit w len out).2)
emit_wrote w len [] = ground arith
emit_wrote w len (b ∷ out) = ground arith

pub toy_laws : IsTinyframe toy
toy_laws = record {
  read_within = read_within;
  control_wrote = λ w len c fs. emit_wrote w len (2 ∷ []);
  start_wrote = λ w len ct. emit_wrote w len (3 ∷ []);
  stop_wrote = λ w len. emit_wrote w len (6 ∷ []);
  frame_wrote = λ w len f. emit_wrote w len f;
}

abbrev pub no_root_fields : RootFields
no_root_fields = record { identity = none; version = none; extra = none }

abbrev pub no_message_fields : MessageFields
no_message_fields = record {
  query_address = none;
  response_address = none;
  query_port = none;
  response_port = none;
  query_time_sec = none;
  query_time_nsec = none;
  query_message = none;
  query_zone = none;
  response_time_sec = none;
  response_time_nsec = none;
  response_message = none;
}

abbrev pub some_policy : Policy
some_policy = record { has_action = true; action = 9; has_match = true; match = 2; rest = [] }

abbrev pub some_message : Message
some_message = record {
  type = 40;
  has_socket_family = true;
  socket_family = 7;
  has_socket_protocol = true;
  socket_protocol = 2;
  policy = outside;
  fields = no_message_fields;
}

abbrev pub some_root : Root
some_root = record { type = 1; message = outside; fields = no_root_fields }

abbrev pub some_unpacked : Unpacked
some_unpacked = record { dnstap = some_root; message = some_message; policy = some_policy }

abbrev toy_unpack : Bytes → Option Unpacked
toy_unpack [] = none
toy_unpack (b ∷ src) = some some_unpacked

abbrev pub toy_protobuf : Protobuf
toy_protobuf = record {
  root_init = record { type = 0; message = null; fields = no_root_fields };
  message_init = record some_message { type = 0; policy = null };
  policy_init = some_policy;
  unpack = toy_unpack;
  get_packed_size = λ r m. 1;
  pack = λ r m. 5 ∷ [];
}

pub toy_protobuf_laws : IsProtobuf toy_protobuf
toy_protobuf_laws = record { packed_size = λ r m. refl }

abbrev regrown : Option Bytes → ℕ → Bytes
regrown p n = take n (contents p) ++ replicate (n - length (contents p)) 0

abbrev pub toy_alloc : Allocator
toy_alloc = record { malloc = λ n. some (replicate n 0); realloc = λ p n. some (regrown p n) }

length-regrown : (p : Option Bytes) (n : ℕ) → length (regrown p n) ≡ n
length-regrown p n = omega (
  arith,
  length-append (take n (contents p)) (replicate (n - length (contents p)) 0),
  length-take n (contents p),
  length-replicate {A = ℕ} (n - length (contents p)) 0,
)

take-regrown :
    (p : Option Bytes) (n k : ℕ)
    → k ≤ n
    → k ≤ length (contents p)
    → take k (regrown p n) ≡ take k (contents p)
take-regrown p n k h i =
    take-append_le k (take n (contents p)) (replicate (n - length (contents p)) 0)
      (omega (arith, length-take n (contents p)))
    ∙ take-take k n (contents p) h

malloc_exact : (n : ℕ) {p : Bytes} → toy_alloc.malloc n ≡ some p → length p ≡ n
malloc_exact n {p} e = subst (λ x. length x ≡ n) (some-injective _ _ e) (length-replicate n 0)

realloc_exact :
    (o : Option Bytes) (n : ℕ) {q : Bytes} → toy_alloc.realloc o n ≡ some q → length q ≡ n
realloc_exact o n {q} e = subst (λ x. length x ≡ n) (some-injective _ _ e) (length-regrown o n)

realloc_same :
    (o : Option Bytes) (n k : ℕ) {q : Bytes}
    → toy_alloc.realloc o n ≡ some q
    → k ≤ n
    → k ≤ length (contents o)
    → take k q ≡ take k (contents o)
realloc_same o n k {q} e h i =
    subst (λ x. take k x ≡ take k (contents o)) (some-injective _ _ e) (take-regrown o n k h i)

pub toy_alloc_laws : IsAllocator toy_alloc
toy_alloc_laws = record {
  malloc_length = malloc_exact;
  realloc_length = realloc_exact;
  realloc_keeps = realloc_same;
}

-- A descriptor with the bytes `bs` to read, which takes up to two bytes at once.
abbrev pub toy_io : Bytes → Io
toy_io bs = record { read = λ n. some (take n bs); write = λ w. some (length (take 2 w)) }

read_exact : (bs : Bytes) (n : ℕ) {out : Bytes} → (toy_io bs).read n ≡ some out → length out ≤ n
read_exact bs n e =
    subst (λ x. length x ≤ n) (some-injective _ _ e) (omega (arith, length-take n bs))

write_exact : (bs w : Bytes) {k : ℕ} → (toy_io bs).write w ≡ some k → k ≤ length w
write_exact bs w e =
    subst (λ x. x ≤ length w) (some-injective _ _ e) (omega (arith, length-take 2 w))

pub toy_io_laws : (bs : Bytes) → IsIo (toy_io bs)
toy_io_laws bs = record { read_fits = read_exact bs; write_fits = write_exact bs }
