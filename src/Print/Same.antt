-- ===== src/Print/Same.antt =====
-- `printable_string` of examples/print_dnstap.c and `__printable_string` of src/trace.c.
use dnswire.Prelude.{
  ℕ, ◌+◌, ◌-◌, ◌/◌, ◌%◌, ◌≤◌, ◌<◌, ◌≡◌, refl, sym, ap, ◌∙◌, Bool, false, [], ◌∷◌, ◌++◌, inl, inr,
  length, take, drop, ltb, leb, Bool-cases, arith,
}
use dnswire.Exec.{Bytes, Ensures}
use dnswire.Exec.Rules.{Ensures-ret, Ensures->>=, store_lem, length_stored}
use dnswire.Trace.{buf_size, hex_digit, escaped}
use dnswire.Trace
use dnswire.Trace.Text.{c_string, take-stored}
use dnswire.Print.{hex_char, hex_text}
use dnswire.Print

abbrev pub AreBytes : Bytes → Type 0
AreBytes [] = Unit
AreBytes (c ∷ cs) = (c < 256) × AreBytes cs

hex_char_lem : (d : ℕ) → d < 16 → hex_char d ≡ hex_digit d
unfolding hex_char hex_digit
hex_char_lem d h = ground arith

hex_text_lem : (c : ℕ) → c < 256 → hex_text c ≡ escaped c
unfolding hex_text escaped
hex_text_lem c h =
    let e : (c / 16) % 16 ≡ c / 16 = omega arith in
    rw (e, hex_char_lem (c / 16) (omega arith), hex_char_lem (c % 16) (omega arith)) refl

-- What stands behind the zero byte is no part of the string.
c_string-zero : (s p q : Bytes) → c_string (s ++ (0 ∷ p)) ≡ c_string (s ++ (0 ∷ q))
c_string-zero [] p q = refl
c_string-zero (c ∷ s) p q = ground (arith, c_string-zero s p q)

-- The same number of bytes is stored, and they are the same; what follows them may differ.
record Same (x y : ℕ × Bytes) : Type 0 where
  size : length x.1 ≡ buf_size
  size_same : length y.1 ≡ buf_size
  inside : x.0 < buf_size
  counts : y.0 ≡ x.0
  stored : take x.0 y.1 ≡ take x.0 x.1

Same-store :
    (w k : ℕ) (b c u v : Bytes)
    → Same (w, b) (w, c)
    → w + length u ≤ buf_size
    → w + length v ≤ buf_size
    → k ≤ length u
    → k ≤ length v
    → w + k < buf_size
    → take k v ≡ take k u
    → Same
        (w + k, take w b ++ (u ++ drop (w + length u) b))
        (w + k, take w c ++ (v ++ drop (w + length v) c))
Same-store w k b c u v s f g m n h e = record {
  size = length_stored b w u (omega (arith, s.size)) ∙ s.size;
  size_same = length_stored c w v (omega (arith, s.size_same)) ∙ s.size_same;
  inside = h;
  counts = refl;
  stored =
      take-stored w k c v (drop (w + length v) c) (omega (arith, s.size_same)) n
      ∙ ap (λ x. x ++ take k v) s.stored
      ∙ ap (λ x. take w b ++ x) e
      ∙ sym (take-stored w k b u (drop (w + length u) b) (omega (arith, s.size)) m);
}

module _ (isprint : ℕ → Bool) where
  put_all-Same :
      (src : Bytes) (w : ℕ) (b c : Bytes)
      → AreBytes src
      → Same (w, b) (w, c)
      → Ensures
          (λ x. Ensures (Same x) (Print.put_all isprint src w c))
          (Trace.put_all isprint src w b)
  unfolding Print.put_all Trace.put_all Print.put Trace.put escaped hex_text
  put_all-Same [] w b c bs s = s
  put_all-Same (v ∷ src) w b c bs s = elim (Bool-cases (ltb w (buf_size - 1))) [
    | inr e ↦ rw e s
    | inl e ↦ elim (Bool-cases (isprint v)) [
      | inl p ↦
          rw
            (
              e,
              p,
              store_lem b w (v ∷ []) (ground (arith, e, s.size)),
              store_lem c w (v ∷ []) (ground (arith, e, s.size_same)),
            )
            (put_all-Same src (w + 1) _ _ bs.1 (
              Same-store w 1 b c (v ∷ []) (v ∷ []) s (ground (arith, e)) (ground (arith, e))
                (omega arith) (omega arith) (ground (arith, e)) refl))
      | inr p ↦ elim (Bool-cases (leb (buf_size - 1) (w + 4))) [
        | inl f ↦ rw (e, p, f) s
        | inr f ↦
            rw
              (
                e,
                p,
                f,
                store_lem b w (escaped v ++ (0 ∷ [])) (ground (arith, f, s.size)),
                store_lem c w (hex_text v) (ground (arith, f, s.size_same)),
              )
              (put_all-Same src (w + 4) _ _ bs.1 (
                Same-store w 4 b c (escaped v ++ (0 ∷ [])) (hex_text v) s (ground (arith, f))
                  (ground (arith, f)) (omega arith) (omega arith) (ground (arith, f))
                  (hex_text_lem v bs.0)))
      ]
    ]
  ]

  below : (w : ℕ) → w < buf_size → leb buf_size w ≡ false
  below w h = ground arith

  Same-c_string :
      (x y : ℕ × Bytes)
      → Same x y
      → c_string (take x.0 x.1 ++ (0 ∷ drop (x.0 + 1) x.1))
        ≡ c_string (take y.0 y.1 ++ (0 ∷ drop (y.0 + 1) y.1))
  Same-c_string x y s =
      c_string-zero (take x.0 x.1) (drop (x.0 + 1) x.1) (drop (y.0 + 1) y.1)
      ∙ ap (λ z. c_string (z ++ (0 ∷ drop (y.0 + 1) y.1)))
          (sym s.stored ∙ ap (λ n. take n y.1) (sym s.counts))

  -- On the same bytes and with the same `isprint`, `printable_string` of examples/print_dnstap.c
  -- and `__printable_string` of src/trace.c both return, whatever their buffers of 512 bytes held,
  -- and the strings in these are then equal.
  pub printable_string-Same :
      (src b c : Bytes)
      → AreBytes src
      → length b ≡ buf_size
      → length c ≡ buf_size
      → Ensures
          (λ x. Ensures (λ y. c_string x ≡ c_string y) (Print.printable_string isprint src c))
          (Trace.printable_string isprint src b)
  unfolding Print.printable_string Trace.printable_string
  printable_string-Same src b c bs l m =
      let s : Same (0, b) (0, c) = record {
        size = l;
        size_same = m;
        inside = omega arith;
        counts = refl;
        stored = refl;
      } in
      Ensures->>= (λ x. Ensures (Same x) (Print.put_all isprint src 0 c)) _ _ _
        (put_all-Same src 0 b c bs s)
        λ x p.
          let (y, e, q) = Ensures-ret (Same x) _ p in
          rw
            (
              below x.0 q.inside,
              store_lem x.1 x.0 (0 ∷ []) (omega (arith, q.inside, q.size)),
              e,
              below y.0 (omega (arith, q.inside, q.counts)),
              store_lem y.1 y.0 (0 ∷ []) (omega (arith, q.inside, q.counts, q.size_same)),
            )
            (Same-c_string x y q)
