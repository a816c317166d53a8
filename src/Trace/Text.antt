-- ===== src/Trace/Text.antt =====
-- What `__printable_string` of src/trace.c leaves in its buffer.
use mathlib.Core.List.{append-nil, append_assoc}
use dnswire.Prelude.{
  take-append_add, ℕ, suc, ◌+◌, ◌-◌, ◌≤◌, ◌<◌, ◌≡◌, refl, sym, ap, ◌∙◌, Bool, false, [], ◌∷◌, ◌++◌,
  inl, inr, length, take, drop, ltb, leb, ◌==◌, if◌then◌else◌, Bool-cases, arith, length-append,
  length-take, take-append_le,
}
use dnswire.Exec.{Bytes, Ensures}
use dnswire.Exec.Rules.{Ensures->>=, Ensures-mono, store_lem, length_stored}
use dnswire.Trace.{buf_size, hex_digit, escaped, put, put_all, printable_string}

-- The text up to the zero byte.
abbrev pub c_string : Bytes → Bytes
c_string [] = []
c_string (c ∷ cs) = if c == 0 then [] else c ∷ c_string cs

abbrev pub HasNoZero : Bytes → Type 0
HasNoZero [] = Unit
HasNoZero (c ∷ cs) = (0 < c) × HasNoZero cs

c_string_lem : (s rest : Bytes) → HasNoZero s → c_string (s ++ (0 ∷ rest)) ≡ s
c_string_lem [] rest h = refl
c_string_lem (c ∷ s) rest h = ground (arith, c_string_lem s rest h.1)

HasNoZero-append : (s u : Bytes) → HasNoZero s → HasNoZero u → HasNoZero (s ++ u)
HasNoZero-append [] u h k = k
HasNoZero-append (c ∷ s) u h k = (h.0, HasNoZero-append s u h.1 k)

-- What is stored at `w` stands behind what was there.
pub take-stored :
    (w k : ℕ) (buf s rest : Bytes)
    → w ≤ length buf
    → k ≤ length s
    → take (w + k) (take w buf ++ (s ++ rest)) ≡ take w buf ++ take k s
take-stored w k buf s rest h g =
    let l : length (take w buf) ≡ w = omega (arith, length-take w buf) in
    ap (λ n. take (n + k) (take w buf ++ (s ++ rest))) (sym l)
    ∙ take-append_add k (take w buf) (s ++ rest)
    ∙ ap (λ y. take w buf ++ y) (take-append_le k s rest g)

module _ (isprint : ℕ → Bool) where
  -- How a byte is shown: itself, or `\x` and two digits.
  abbrev pub shown : ℕ → Bytes
  unfolding escaped
  shown c = if isprint c then c ∷ [] else escaped c

  pub text : Bytes → Bytes
  text [] = []
  text (c ∷ cs) = shown c ++ text cs

  module _ (no_zero : isprint 0 ≡ false) where
    shown-HasNoZero : (c : ℕ) → HasNoZero (shown c)
    unfolding escaped hex_digit
    shown-HasNoZero c = ground arith

    text-HasNoZero : (cs : Bytes) → HasNoZero (text cs)
    unfolding text
    text-HasNoZero [] = tt
    text-HasNoZero (c ∷ cs) =
        HasNoZero-append (shown c) (text cs) (shown-HasNoZero c) (text-HasNoZero cs)

  -- From `w` stored bytes on: `n` more bytes of the data are shown, and `n` is as large as it can be.
  record Put (src : Bytes) (w : ℕ) (buf : Bytes) (x : ℕ × Bytes) : Type 0 where
    size : length x.1 ≡ buf_size
    inside : x.0 < buf_size
    shows :
        (n : ℕ) × (n ≤ length src)
        × (x.0 ≡ w + length (text (take n src)))
        × (take x.0 x.1 ≡ take w buf ++ text (take n src))
        × (n < length src → buf_size ≤ w + length (text (take (suc n) src)) + 1)

  length-shown : (c : ℕ) → 1 ≤ length (shown c)
  unfolding escaped
  length-shown c = ground arith

  -- The loop stops before `c`.
  Put-stop :
      (src : Bytes) (w : ℕ) (buf : Bytes)
      → length buf ≡ buf_size
      → w < buf_size
      → (0 < length src → buf_size ≤ w + length (text (take 1 src)) + 1)
      → Put src w buf (w, buf)
  unfolding text
  Put-stop src w buf l i m = record {
    size = l;
    inside = i;
    shows = (0, omega arith, omega arith, sym (append-nil (take w buf)), m);
  }

  Put-cons :
      (c : ℕ) (src : Bytes) (w k : ℕ) (buf b : Bytes) (x : ℕ × Bytes)
      → length (shown c) ≡ k
      → take (w + k) b ≡ take w buf ++ shown c
      → Put src (w + k) b x
      → Put (c ∷ src) w buf x
  unfolding text
  Put-cons c src w k buf b x l e p =
      let (n, a, q, t, m) = p.shows in
      record {
        size = p.size;
        inside = p.inside;
        shows = (
          suc n,
          omega arith,
          omega (arith, length-append (shown c) (text (take n src))),
          t
              ∙ ap (λ y. y ++ text (take n src)) e
              ∙ append_assoc (take w buf) (shown c) (text (take n src)),
          λ h. omega (arith, m (omega arith), length-append (shown c) (text (take (suc n) src))),
        );
      }

  -- Four more bytes do not fit.
  escaped-full : (w c : ℕ) → isprint c ≡ false → 507 ≤ w → buf_size ≤ w + length (text (c ∷ [])) + 1
  unfolding text escaped
  escaped-full w c p h = rw p (omega arith)

  put_all-Put :
      (src : Bytes) (w : ℕ) (buf : Bytes)
      → length buf ≡ buf_size
      → w < buf_size
      → Ensures (Put src w buf) (put_all isprint src w buf)
  unfolding put_all put escaped
  put_all-Put [] w buf l i = Put-stop [] w buf l i (λ h. absurd (omega arith))
  put_all-Put (c ∷ src) w buf l i = elim (Bool-cases (ltb w (buf_size - 1))) [
    | inr e ↦
        rw (e, Ensures)
          (Put-stop (c ∷ src) w buf l i
            (λ h. omega (arith, full e, length-append (shown c) [], length-shown c)))
    | inl e ↦ elim (Bool-cases (isprint c)) [
      | inl p ↦
          let b = take w buf ++ ((c ∷ []) ++ drop (w + 1) buf) in
          rw (e, p, store_lem buf w (c ∷ []) (ground (arith, e)))
            (Ensures-mono (Put src (w + 1) b) (Put (c ∷ src) w buf) _
              (put_all-Put src (w + 1) b (length_stored buf w (c ∷ []) (ground (arith, e)) ∙ l)
                (ground (arith, e)))
              λ x q.
                Put-cons c src w 1 buf b x (rw p refl)
                  (take-stored w 1 buf (c ∷ []) (drop (w + 1) buf) (ground (arith, e)) (omega arith)
                    ∙ (rw p refl))
                  q)
      | inr p ↦ elim (Bool-cases (leb (buf_size - 1) (w + 4))) [
        | inl f ↦
            rw (e, p, f, Ensures)
              (Put-stop (c ∷ src) w buf l i (λ h. escaped-full w c p (ground (arith, f))))
        | inr f ↦
            let z = escaped c ++ (0 ∷ []) in
            let b = take w buf ++ (z ++ drop (w + length z) buf) in
            rw (e, p, f, store_lem buf w z (ground (arith, f)))
              (Ensures-mono (Put src (w + 4) b) (Put (c ∷ src) w buf) _
                (put_all-Put src (w + 4) b (length_stored buf w z (ground (arith, f)) ∙ l)
                  (ground (arith, f)))
                λ x q.
                  Put-cons c src w 4 buf b x (rw p refl)
                    (take-stored w 4 buf z (drop (w + length z) buf) (ground (arith, f))
                        (omega arith)
                      ∙ (rw p refl))
                    q)
      ]
    ]
  ]
    where
      full : ltb w (buf_size - 1) ≡ false → 511 ≤ w
      full e = ground (arith, e)

  -- What the buffer holds at the end.
  pub record Printed (src buf : Bytes) : Type 0 where
    size : length buf ≡ buf_size
    shows :
        (n : ℕ) × (n ≤ length src)
        × (c_string buf ≡ text (take n src))
        × (length (text (take n src)) < buf_size)
        × (n < length src → buf_size ≤ length (text (take (suc n) src)) + 1)

  Put-Printed :
      isprint 0 ≡ false
      → (src buf : Bytes) (x : ℕ × Bytes) → Put src 0 buf x
      → Printed src (take x.0 x.1 ++ (0 ∷ drop (x.0 + 1) x.1))
  Put-Printed no_zero src buf x p =
      let (n, a, q, t, m) = p.shows in
      record {
        size = length_stored x.1 x.0 (0 ∷ []) (omega (arith, p.size, p.inside)) ∙ p.size;
        shows = (
          n,
          a,
          ap (λ y. c_string (y ++ (0 ∷ drop (x.0 + 1) x.1))) t
              ∙ c_string_lem (text (take n src)) (drop (x.0 + 1) x.1)
                  (text-HasNoZero no_zero (take n src)),
          omega (arith, p.inside, q),
          λ h. omega (arith, m h),
        );
      }

  full : (src buf : Bytes) (x : ℕ × Bytes) → Put src 0 buf x → leb buf_size x.0 ≡ false
  full src buf x p = ground (arith, p.inside)

  -- If `isprint` refuses the zero byte, `__printable_string` returns without leaving its 512
  -- bytes, whatever they held. The string in them is then the text of a first part of the data,
  -- where a byte that `isprint` accepts stands for itself and another is `\x` with two digits; it
  -- is at most 511 bytes long, and if a byte of the data is left, then with its text the string
  -- would be 511 bytes or longer.
  pub printable_string_lem :
      isprint 0 ≡ false
      → (src buf : Bytes) → length buf ≡ buf_size
      → Ensures (Printed src) (printable_string isprint src buf)
  unfolding printable_string
  printable_string_lem no_zero src buf l =
      Ensures->>= (Put src 0 buf) (Printed src) _ _ (put_all-Put src 0 buf l (omega arith)) λ x p.
        rw (full src buf x p, store_lem x.1 x.0 (0 ∷ []) (omega (arith, p.size, p.inside)))
          (Put-Printed no_zero src buf x p)
