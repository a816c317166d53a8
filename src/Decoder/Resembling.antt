-- ===== src/Decoder/Resembling.antt =====
-- Which content type fields src/decoder.c takes for DNSTAP's.
use dnswire.Prelude.{
  ◌≡◌, ◌⊎◌, refl, sym, subst, ap, true, inl, inr, [], ◌∷◌, ◌++◌, ◌==◌, ==_iff, Bool-cases, arith,
}
use dnswire.Exec.{Bytes}
use dnswire.Decoder.ContentType.{content_type, strncmp_same, is_content_type}

-- The field is a front part of `s`, or `s`, a zero byte, and anything.
abbrev pub Resembles : Bytes → Bytes → Type 0
Resembles s field =
    ((rest : Bytes) × (field ++ rest ≡ s)) ⊎ ((rest : Bytes) × (field ≡ s ++ (0 ∷ rest)))

same_prefix : (s field : Bytes) → strncmp_same s field ≡ true → Resembles s field
unfolding strncmp_same
same_prefix s [] h = inl (s, refl)
same_prefix [] (c ∷ field) h = inr (field, ap (λ x. x ∷ field) ((==_iff c 0).0 h))
same_prefix (a ∷ s) (c ∷ field) h = elim (Bool-cases (a == c)) [
  | inl e ↦ elim (same_prefix s field (rw e at h)) [
    | inl (rest, p) ↦ inl (rest, let q : a ≡ c = (==_iff a c).0 e in cc)
    | inr (rest, p) ↦ inr (rest, let q : a ≡ c = (==_iff a c).0 e in cc)
  ]
  | inr e ↦ absurd (ground (arith, rw e at h))
]

part_same : (field rest : Bytes) → strncmp_same (field ++ rest) field ≡ true
unfolding strncmp_same
part_same [] rest = refl
part_same (c ∷ field) rest = rw ((==_iff c c).1 refl) (part_same field rest)

longer_same : (s rest : Bytes) → strncmp_same s (s ++ (0 ∷ rest)) ≡ true
unfolding strncmp_same
longer_same [] rest = refl
longer_same (a ∷ s) rest = rw ((==_iff a a).1 refl) (longer_same s rest)

-- A field passes the decoder's comparison exactly if it is a front part of
-- "protobuf:dnstap.Dnstap", the empty one included, or this string, a zero byte, and anything.
pub is_content_type_lem :
    (field : Bytes)
    → (is_content_type field ≡ true → Resembles content_type field)
      × (Resembles content_type field → is_content_type field ≡ true)
unfolding is_content_type
is_content_type_lem field = (
  same_prefix content_type field,
  elim [
    | inl (rest, e) ↦ subst (λ s. strncmp_same s field ≡ true) e (part_same field rest)
    | inr (rest, e) ↦
        subst (λ f. strncmp_same content_type f ≡ true) (sym e) (longer_same content_type rest)
  ],
)
