-- ===== src/Encoder/Contract.antt =====
-- What `dnswire_encoder_encode` and `dnswire_encoder_stop` promise their callers.
use dnswire.Prelude.{
  ℕ, ◌≤◌, ◌<◌, ◌≡◌, refl, Bool, true, false, inl, inr, Option, none, some, length, ◌==◌, ==_iff,
  Bool-cases, ltb, arith,
}
use dnswire.Exec.{ret, Ensures, Bytes}
use dnswire.Exec.Rules.{Ensures-ret}
use dnswire.Result.{Result, ok, again, have_dnstap, endofdata, bidirectional}
use dnswire.Tinyframe.{TinyframeResult, Tinyframe, Wrote, IsTinyframe}
use dnswire.Dnstap.{
  Message, Policy, Dnstap, Protobuf, IsProtobuf, linked, all_alive, encode_protobuf_size,
  encode_protobuf,
}
use dnswire.Encoder.{
  Encoder, EncoderState, control_ready, control_start, control_accept, control_finish, frames,
  control_stop, done, Reply, encoded, settle, encode_message, encode_frame, encode_in, encode,
}

-- The message to encode has no dangling pointer, if there is one.
abbrev pub IsLinked : Option Dnstap → Type 0
IsLinked none = Unit
IsLinked (some d) = Ensures (λ m. all_alive d.dnstap m ≡ true) (linked d)

-- The results that report bytes.
abbrev pub reports : Result → Bool
reports ok = true
reports again = true
reports endofdata = true
reports _ = false

-- The results that an encoder never returns.
abbrev pub is_foreign : Result → Bool
is_foreign have_dnstap = true
is_foreign bidirectional = true
is_foreign _ = false

module _ (t : Tinyframe) where
  -- The stored bytes fit, all of them are reported if any are, and the message stays.
  pub record Encoded (e : Encoder t) (len : ℕ) (r : Reply t) : Type 0 where
    pub fits : length r.2 ≤ len
    pub counted : reports r.0 ≡ true → encoded t r.1 ≡ length r.2
    pub own_result : is_foreign r.0 ≡ false
    pub same_dnstap : r.1.dnstap ≡ e.dnstap

module _ (t : Tinyframe) (laws : IsTinyframe t) where
  settle_lem :
      (e : Encoder t) (s : EncoderState) (r : Result) (len : ℕ)
      (o : TinyframeResult × t.Writer × Bytes)
      → is_foreign r ≡ false
      → Wrote t len o
      → Encoded t e len (settle t e s r o)
  unfolding settle encoded
  settle_lem e s r len (TinyframeResult.ok, w, out) g h = ground (arith, h.1 refl)
  settle_lem e s r len (TinyframeResult.need_more, w, out) g h = ground arith
  settle_lem e s r len (_, w, out) g h = ground arith

  module _ (pb : Protobuf) (pb_laws : IsProtobuf pb) where
    encode_message_lem :
        (e : Encoder t) (len : ℕ) (d : Dnstap) (m : Option (Message × Option Policy))
        → linked d ≡ ret m
        → all_alive d.dnstap m ≡ true
        → Ensures (Encoded t e len) (encode_message t pb e len d)
    unfolding encode_message encode_protobuf_size encode_protobuf
    encode_message_lem e len d m em alive =
        let n = pb.get_packed_size d.dnstap m in
        let whole : (length (pb.pack d.dnstap m) == n) ≡ true =
          (==_iff _ _).1 (pb_laws.packed_size d.dnstap m) in
        elim (Bool-cases (ltb len (t.frame_size n))) [
          | inl short ↦ rw (em, short) (ground arith)
          | inr enough ↦
              rw (em, alive, enough, whole)
                (settle_lem e e.state ok len _ refl (laws.frame_wrote _ _ _))
        ]

    encode_frame_lem :
        (e : Encoder t) (len : ℕ) (o : Option Dnstap)
        → IsLinked o
        → Ensures (Encoded t e len) (encode_frame t pb e len o)
    unfolding encode_frame
    encode_frame_lem e len none h = ground arith
    encode_frame_lem e len (some d) h =
        let (m, em, alive) = Ensures-ret (λ m. all_alive d.dnstap m ≡ true) (linked d) h in
        encode_message_lem e len d m em alive

    encode_in_lem :
        (s : EncoderState) (e : Encoder t) (len : ℕ)
        → IsLinked e.dnstap
        → Ensures (Encoded t e len) (encode_in t pb s e len)
    unfolding encode_in
    encode_in_lem control_ready e len h = settle_lem e _ _ len _ refl (laws.control_wrote _ _ _ _)
    encode_in_lem control_start e len h = settle_lem e _ _ len _ refl (laws.start_wrote _ _ _)
    encode_in_lem control_accept e len h = settle_lem e _ _ len _ refl (laws.control_wrote _ _ _ _)
    encode_in_lem control_finish e len h = settle_lem e _ _ len _ refl (laws.control_wrote _ _ _ _)
    encode_in_lem frames e len h = encode_frame_lem e len e.dnstap h
    encode_in_lem control_stop e len h = settle_lem e _ _ len _ refl (laws.stop_wrote _ _)
    encode_in_lem done e len h = ground arith

    -- For a tinyframe that stores within the length it is given and reports what it stored, and a
    -- protobuf-c whose packed size is what it packs, an encoder that is given room, and a message
    -- without dangling pointers, returns a result of its own; the bytes that it stores fit, it
    -- reports all of them if it reports any, and the message stays.
    pub encode_contract :
        (e : Encoder t) (len : ℕ)
        → 0 < len
        → IsLinked e.dnstap
        → Ensures (Encoded t e len) (encode t pb e len)
    unfolding encode
    encode_contract e len p h =
        let positive : (len == 0) ≡ false = ground arith in
        rw positive (encode_in_lem e.state e len h)
