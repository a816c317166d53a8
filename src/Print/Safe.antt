-- ===== src/Print/Safe.antt =====
-- `print_dnstap` of examples/print_dnstap.c on what `dnstap_decode_protobuf` leaves.
use dnswire.Prelude.{
  ℕ, ◌≡◌, ◌⊎◌, refl, subst, Bool, true, false, ◌&&◌, List, [], ◌∷◌, none, some, ◌==◌, Bool-cases,
  inl, inr, arith, All,
}
use dnswire.Exec.{Exec, Bytes, Ensures}
use dnswire.Exec.Rules.{Ensures->>=, Ensures-mono, Ensures-Both}
use dnswire.Dnstap.{
  outside, null, Message, Unpacked, Dnstap, Protobuf, is_alive, root_alive, message_alive,
  decode_protobuf, is_null,
}
use dnswire.Dnstap.Set.{has_message}
use dnswire.Dnstap.Decoded.{
  CleanedAs, Cleaned, decode_protobuf-CleanedAs, clean_message-IsCleanMessage,
}
use dnswire.Names.{message_type_string, socket_family_string, socket_protocol_string}
use dnswire.Names.Bounds.{Has, IsNamed, decode_protobuf-IsNamed}
use dnswire.Print.Message.{in_order, message_parts, dnstap_parts, Out, print_message, print_dnstap}
use dnswire.Print.Steps.{
  Fits, print_name-Fits, print_flagged-Fits, print_number-Fits, print_time-Fits, print_string-Fits,
  print_address-Fits, print_wire-Fits,
}

and_true : (a b : Bool) → (a && b) ≡ true → (a ≡ true) × (b ≡ true)
and_true true b h = (refl, h)
and_true false b h = cc

module _ (isprint : ℕ → Bool) (inet_ntop : Bytes → Bytes) where
  -- The names of the enums are in their tables, and the bytes of all fields can be read.
  record Printable (m : Message) : Type 0 where
    type : Has message_type_string m.type
    family : Has socket_family_string m.socket_family
    protocol : Has socket_protocol_string m.socket_protocol
    alive : message_alive m.fields ≡ true

  Each : List (Out → Exec Out) → Type 0
  Each ps = All (λ p. (o : Out) → Fits o → Ensures Fits (p o)) ps

  in_order-Fits :
      (ps : List (Out → Exec Out))
      → Each ps
      → (o : Out) → Fits o
      → Ensures Fits (in_order isprint inet_ntop ps o)
  unfolding in_order Each
  in_order-Fits [] e o h = h
  in_order-Fits (p ∷ ps) e o h = Ensures->>= Fits Fits (p o) _ (e.0 o h) (in_order-Fits ps e.1)

  print_message-Fits :
      (m : Message)
      → Printable m
      → (o : Out) → Fits o
      → Ensures Fits (print_message isprint inet_ntop m o)
  unfolding print_message message_parts message_alive Each
  print_message-Fits m p =
      let (qa, q) = and_true (is_alive m.fields.query_address) _ p.alive in
      let (ra, r) = and_true (is_alive m.fields.response_address) _ q in
      let (qm, s) = and_true (is_alive m.fields.query_message) _ r in
      let (qz, rm) = and_true (is_alive m.fields.query_zone) _ s in
      in_order-Fits (message_parts isprint inet_ntop m) (
        (λ o h. print_name-Fits o h _ _ _ p.type),
        (
          (λ o h. print_time-Fits o h _ _ _),
          (
            (λ o h. print_time-Fits o h _ _ _),
            (
              (λ o h. print_flagged-Fits o h _ _ _ _ _ _ p.family),
              (
                (λ o h. print_flagged-Fits o h _ _ _ _ _ _ p.protocol),
                (
                  (λ o h. print_address-Fits isprint inet_ntop _ _ o h qa),
                  (
                    (λ o h. print_number-Fits o h _ _),
                    (
                      (λ o h. print_address-Fits isprint inet_ntop _ _ o h ra),
                      (
                        (λ o h. print_number-Fits o h _ _),
                        (
                          (λ o h. print_string-Fits isprint inet_ntop _ _ o h qz),
                          (
                            (λ o h. print_wire-Fits isprint inet_ntop _ _ _ o h qm),
                            ((λ o h. print_wire-Fits isprint inet_ntop _ _ _ o h rm), tt),
                          ),
                        ),
                      ),
                    ),
                  ),
                ),
              ),
            ),
          ),
        ),
      )

  print_dnstap-Fits :
      (d : Dnstap) (o : Out)
      → Fits o
      → root_alive d.dnstap.fields ≡ true
      → (has_message d ≡ true → Printable d.message)
      → Ensures Fits (print_dnstap isprint inet_ntop d o)
  unfolding print_dnstap dnstap_parts root_alive Each
  print_dnstap-Fits d o h a p =
      let (i, b) = and_true (is_alive d.dnstap.fields.identity) _ a in
      let (v, x) = and_true (is_alive d.dnstap.fields.version) _ b in
      in_order-Fits (dnstap_parts isprint inet_ntop d)
        (
          (λ q g. print_string-Fits isprint inet_ntop _ _ q g i),
          (
            (λ q g. print_string-Fits isprint inet_ntop _ _ q g v),
            (
              (λ q g. print_string-Fits isprint inet_ntop _ _ q g x),
              (
                (λ q g. elim (Bool-cases (has_message d)) [
                  | inl e ↦ elim (Bool-cases (d.dnstap.type == 1)) [
                    | inl f ↦ rw (e, f) (print_message-Fits d.message (p e) q g)
                    | inr f ↦ rw (e, f) g
                  ]
                  | inr e ↦ elim (Bool-cases (d.dnstap.type == 1)) [
                    | inl f ↦ rw (e, f) g
                    | inr f ↦ rw (e, f) g
                  ]
                ]),
                tt,
              ),
            ),
          ),
        )
        o h

  -- The message of a struct that was decoded, if it has one, is a cleaned copy.
  named :
      (u : Unpacked) (r : Bool × Dnstap)
      → (u.dnstap.message ≡ null) ⊎ (u.dnstap.message ≡ outside)
      → message_alive u.message.fields ≡ true
      → Cleaned u r
      → IsNamed u r.1
      → has_message r.1 ≡ true
      → Printable r.1.message
  unfolding has_message is_null
  named u r (inl n) a c w m = let z = c.same_message in absurd (ground arith)
  named u r (inr n) a c w m =
      let (x, y, z) = w.message n in
      record {
        type = x;
        family = y;
        protocol = z;
        alive = rw (c.message n, (clean_message-IsCleanMessage u.message).2) a;
      }

  -- If nothing is unpacked yet, and the bytes unpack to data whose message pointer is null or to
  -- its own message and whose fields of bytes can be read, then `dnstap_decode_protobuf` returns 0
  -- and `print_dnstap` on the struct returns, whatever numbers the enums had and whatever the
  -- static buffer of 512 bytes held: no index is outside its table of names, no pointer is null or
  -- dangling, and nothing is written behind the buffer.
  pub print-decode_protobuf :
      (pb : Protobuf) (d : Dnstap) (src : Bytes) (u : Unpacked) (o : Out)
      → d.unpacked_dnstap ≡ none
      → pb.unpack src ≡ some u
      → (u.dnstap.message ≡ null) ⊎ (u.dnstap.message ≡ outside)
      → root_alive u.dnstap.fields ≡ true
      → message_alive u.message.fields ≡ true
      → Fits o
      → Ensures
          (λ r. (r.0 ≡ false) × Ensures Fits (print_dnstap isprint inet_ntop r.1 o))
          (decode_protobuf pb d src)
  print-decode_protobuf pb d src u o h e n ra ma k =
      Ensures-mono (λ r. ((r.0 ≡ false) × IsNamed u r.1) × CleanedAs (pb.unpack src) d r) _
        (decode_protobuf pb d src)
        (Ensures-Both (λ r. (r.0 ≡ false) × IsNamed u r.1) (CleanedAs (pb.unpack src) d) _
          (decode_protobuf-IsNamed pb d src u h e) (decode_protobuf-CleanedAs pb d src h))
        λ r w.
          let c : Cleaned u r = subst (λ x. CleanedAs x d r) e w.1 in
          (c.accepted, print_dnstap-Fits r.1 o k (rw (c.same_fields) ra) (named u r n ma c w.0.1))
