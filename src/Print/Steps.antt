-- ===== src/Print/Steps.antt =====
-- Each step of `print_dnstap` of examples/print_dnstap.c keeps to the static buffer.
use Prim.Native.String.{String}
use dnswire.Prelude.{
  ℕ, ◌+◌, ◌-◌, ◌<◌, ◌≡◌, refl, ◌∙◌, Bool, true, false, List, [], ◌∷◌, Option, none, some, length,
  ltb, leb, Bool-cases, inl, inr, arith,
}
use dnswire.Exec.{ret, Bytes, Ensures}
use dnswire.Exec.Rules.{Ensures->>=, store_lem, length_stored}
use dnswire.Dnstap.{Span, lasting, local, gone, is_alive}
use dnswire.Names.Bounds.{Has}
use dnswire.Trace.{buf_size}
use dnswire.Print.{hex_text, put, put_all, printable_string}
use dnswire.Print.Message.{
  Out, print_name, print_time, print_number, span_bytes, print_string, print_address, print_wire,
  print_flagged, print_line,
}

-- The static buffer has its size.
abbrev pub Fits : Out → Type 0
Fits o = length o.buf ≡ buf_size

abbrev Inside : ℕ × Bytes → Type 0
Inside x = (x.0 < buf_size) × (length x.1 ≡ buf_size)

module _ (isprint : ℕ → Bool) where
  -- A byte, or four, go into the buffer, with room for the zero byte.
  put_all-Inside :
      (src : Bytes) (w : ℕ) (buf : Bytes)
      → Inside (w, buf)
      → Ensures Inside (put_all isprint src w buf)
  unfolding put_all put hex_text
  put_all-Inside [] w buf h = h
  put_all-Inside (c ∷ src) w buf h = elim (Bool-cases (ltb w (buf_size - 1))) [
    | inr e ↦ rw e h
    | inl e ↦ elim (Bool-cases (isprint c)) [
      | inl p ↦
          rw (e, p, store_lem buf w (c ∷ []) (ground arith))
            (put_all-Inside src (w + 1) _
              (ground arith, length_stored buf w (c ∷ []) (ground arith) ∙ h.1))
      | inr p ↦ elim (Bool-cases (leb (buf_size - 1) (w + 4))) [
        | inl q ↦ rw (e, p, q) h
        | inr q ↦
            rw (e, p, q, store_lem buf w (hex_text c) (ground arith))
              (put_all-Inside src (w + 4) _
                (ground arith, length_stored buf w (hex_text c) (ground arith) ∙ h.1))
      ]
    ]
  ]

  printable_string-size :
      (src buf : Bytes)
      → length buf ≡ buf_size
      → Ensures (λ b. length b ≡ buf_size) (printable_string isprint src buf)
  unfolding printable_string
  printable_string-size src buf h =
      Ensures->>= Inside (λ b. length b ≡ buf_size) (put_all isprint src 0 buf) _
        (put_all-Inside src 0 buf (omega arith, h))
        λ x i.
          let e : leb buf_size x.0 ≡ false = ground arith in
          rw (e, store_lem x.1 x.0 (0 ∷ []) (omega arith))
            (length_stored x.1 x.0 (0 ∷ []) (omega arith) ∙ i.1)

-- The steps that print one field.
module _ (o : Out) (h : Fits o) where
  pub print_name-Fits :
      (label : String) (table : List String) (i : ℕ)
      → Has table i
      → Ensures Fits (print_name label table i o)
  unfolding print_name print_line
  print_name-Fits label table i (s, e) = rw (e, print_name) h

  pub print_flagged-Fits :
      (isprint : ℕ → Bool) (inet_ntop : Bytes → Bytes) (b : Bool) (label : String)
      (table : List String) (i : ℕ)
      → Has table i
      → Ensures Fits (print_flagged isprint inet_ntop b label table i o)
  unfolding print_flagged
  print_flagged-Fits isprint inet_ntop false label table i e = h
  print_flagged-Fits isprint inet_ntop true label table i e = print_name-Fits label table i e

  pub print_number-Fits : (label : String) (n : Option ℕ) → Ensures Fits (print_number label n o)
  unfolding print_number print_line
  print_number-Fits label none = h
  print_number-Fits label (some n) = h

  pub print_time-Fits : (label : String) (s n : Option ℕ) → Ensures Fits (print_time label s n o)
  unfolding print_time print_line
  print_time-Fits label (some s) (some n) = h
  print_time-Fits label (some s) none = h
  print_time-Fits label none n = h

module _ (isprint : ℕ → Bool) (inet_ntop : Bytes → Bytes) where
  text_Fits :
      (label : String) (src : Bytes) (s : Span) (o : Out)
      → Fits o
      → span_bytes s ≡ ret src
      → Ensures Fits (print_string isprint inet_ntop label (some s) o)
  unfolding print_string print_line
  text_Fits label src s o h e = rw e (
      Ensures->>= (λ b. length b ≡ buf_size) Fits (printable_string isprint src o.buf) _
        (printable_string-size isprint src o.buf h) (λ b k. k))

  pub print_string-Fits :
      (label : String) (f : Option Span) (o : Out)
      → Fits o
      → is_alive f ≡ true
      → Ensures Fits (print_string isprint inet_ntop label f o)
  unfolding is_alive span_bytes print_string
  print_string-Fits label none o h a = h
  print_string-Fits label (some (lasting b)) o h a = text_Fits label b (lasting b) o h refl
  print_string-Fits label (some (local b)) o h a = text_Fits label b (local b) o h refl
  print_string-Fits label (some gone) o h a = cc

  pub print_address-Fits :
      (label : String) (f : Option Span) (o : Out)
      → Fits o
      → is_alive f ≡ true
      → Ensures Fits (print_address isprint inet_ntop label f o)
  unfolding is_alive span_bytes print_address print_line
  print_address-Fits label none o h a = h
  print_address-Fits label (some (lasting b)) o h a = h
  print_address-Fits label (some (local b)) o h a = h
  print_address-Fits label (some gone) o h a = cc

  pub print_wire-Fits :
      (size label : String) (f : Option Span) (o : Out)
      → Fits o
      → is_alive f ≡ true
      → Ensures Fits (print_wire isprint inet_ntop size label f o)
  unfolding is_alive span_bytes print_wire print_line
  print_wire-Fits size label none o h a = h
  print_wire-Fits size label (some (lasting b)) o h a = text_Fits label b (lasting b) _ h refl
  print_wire-Fits size label (some (local b)) o h a = text_Fits label b (local b) _ h refl
  print_wire-Fits size label (some gone) o h a = cc
