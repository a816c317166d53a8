-- ===== src/Reader/Feeding.antt =====
-- What `dnswire_reader_push` of src/reader.c does to the bytes it is given, and the cases of it that
-- take some.
use mathlib.Core.List.{append-nil}
use dnswire.Prelude.{
  ℕ, ◌≤◌, ◌<◌, ◌≡◌, ◌≢◌, refl, sym, subst, ap, ◌∙◌, true, false, inl, inr, length, drop, take, ◌++◌,
  ◌==◌, Bool-cases, arith,
}
use dnswire.Prelude.Size.{size_mod}
use dnswire.Exec.{Exec, Bytes, Ensures}
use dnswire.Exec.Rules.{Ensures->>=, Ensures-mono}
use dnswire.Result.{Result, error, again, need_more, have_dnstap}
use dnswire.Alloc.{Allocator, IsAllocator}
use dnswire.Buffer.{Buffer, fill}
use dnswire.Buffer.Valid.{unread}
use dnswire.Buffer.Fill.{Filled, fill_lem}
use dnswire.Tinyframe.{Tinyframe, IsTinyframe}
use dnswire.Dnstap.{Protobuf, IsProtobuf}
use dnswire.Reader.{Reader, ReaderState, decoding_control, decoding, Reply}
use dnswire.Reader.Decode.{decode_control, decode_data}
use dnswire.Reader.Push.{Pushed, has_more, fill_control, fill_data}
use dnswire.Reader.Valid.{decodes, writes, IsReader, Dropped, none_dropped, Stepped}
use dnswire.Reader.Steps.{decode_control-Stepped, decode_data-Stepped}

module _ (t : Tinyframe) where
  -- After a call that was given `src`: `pushed` bytes of it are taken, and the unread bytes are those
  -- before, followed by these, less a part from the front that the decoder has consumed.
  pub record Taken (r : Reader t) (src : Bytes) (result : Result) (q : Reader t) : Type 0 where
    pub valid : result ≢ error → IsReader t q
    pub taken : q.pushed ≤ length src
    pub queue :
        (k : ℕ) × (unread q.input ≡ drop k (unread r.input ++ take q.pushed src))
        × Dropped t (result, q) k

  -- What a call of `push` leaves for the caller.
  abbrev pub Good : Reader t → Bytes → Pushed t → Type 0
  Good r src x = Taken r src x.result x.reader

  pub of_Stepped :
      (r : Reader t) (src : Bytes) (n : ℕ) (x : Reply t)
      → n ≤ length src
      → Stepped t (unread r.input ++ take n src) n x
      → Taken r src x.0 x.1
  of_Stepped r src n x h s = record {
    valid = s.valid;
    taken = omega (arith, s.same_pushed);
    queue = (
      s.queue.0,
      s.queue.1 ∙ ap (λ m. drop s.queue.0 (unread r.input ++ take m src)) (sym s.same_pushed),
      s.queue.2,
    );
  }

  pub untouched :
      (r q : Reader t) (src : Bytes) (x : Result)
      → (x ≢ error → IsReader t q)
      → q.input ≡ r.input
      → q.pushed ≡ 0
      → x ≢ have_dnstap
      → (x ≡ again → decodes q.state ≡ false)
      → Taken r src x q
  untouched r q src x v e z n d = record {
    valid = v;
    taken = omega arith;
    queue = (0, rw (e, z) (sym (append-nil (unread r.input))), none_dropped t (x, q) n d);
  }

module _ (t : Tinyframe) (pb : Protobuf) (al : Allocator) (tl : IsTinyframe t) (pl : IsProtobuf pb)
    (laws : IsAllocator al) where
  -- What is filled in makes a reader that can decode.
  pub filled :
      (r : Reader t) (src : Bytes) (s : ReaderState) (f : ℕ × Buffer)
      → IsReader t r
      → writes r.state ≡ false
      → decodes s ≡ true
      → 0 < length src
      → Filled r.input src f
      → IsReader t (record r { input = f.1; pushed = f.0; state = s })
  filled r src decoding_control f v w d h g = ground arith
  filled r src _ f v w d h g = ground arith

  fed :
      (r : Reader t) (src : Bytes) (f : ℕ × Buffer)
      → Filled r.input src f
      → (m : Exec (Reply t)) → Ensures (Stepped t (unread f.1) f.0) m
      → Ensures (λ x. Taken t r src x.0 x.1) m
  fed r src f g m h =
      Ensures-mono (Stepped t (unread f.1) f.0) (λ x. Taken t r src x.0 x.1) m h
        λ x s.
          of_Stepped t r src f.0 x (omega (arith, g.count))
            (subst (λ b. Stepped t b f.0 x) g.queue s)

  pub fill_control_lem :
      (r : Reader t) (src : Bytes)
      → IsReader t r
      → writes r.state ≡ false
      → r.pushed ≡ 0
      → length src < size_mod
      → Ensures (λ x. Taken t r src x.0 x.1) (fill_control t pb al r src)
  unfolding fill_control
  fill_control_lem r src v w z h = elim (Bool-cases (length src == 0)) [
    | inl e ↦ rw e (untouched t r r src need_more (λ n. v) refl z (λ h. cc) (λ h. cc))
    | inr e ↦ rw e (
        Ensures->>= (Filled r.input src) (λ x. Taken t r src x.0 x.1) (fill r.input src) _
          (fill_lem r.input src v.basic.input h)
          λ f g.
            let q = record r { input = f.1; pushed = f.0; state = decoding_control } in
            fed r src f g (decode_control t pb al (has_more t pb al q (length src)) q) (
              decode_control-Stepped t pb al tl laws (has_more t pb al q (length src)) q
                (filled r src decoding_control f v w refl (ground arith) g) refl))
  ]

  pub fill_data_lem :
      (r : Reader t) (src : Bytes)
      → IsReader t r
      → writes r.state ≡ false
      → r.pushed ≡ 0
      → length src < size_mod
      → Ensures (λ x. Taken t r src x.0 x.1) (fill_data t pb al r src)
  unfolding fill_data
  fill_data_lem r src v w z h = elim (Bool-cases (length src == 0)) [
    | inl e ↦ rw e (untouched t r r src need_more (λ n. v) refl z (λ h. cc) (λ h. cc))
    | inr e ↦ rw e (
        Ensures->>= (Filled r.input src) (λ x. Taken t r src x.0 x.1) (fill r.input src) _
          (fill_lem r.input src v.basic.input h)
          λ f g.
            let q = record r { input = f.1; pushed = f.0; state = decoding } in
            fed r src f g (decode_data t pb al (has_more t pb al q (length src)) q) (
              decode_data-Stepped t pb al tl laws (has_more t pb al q (length src)) q
                (filled r src decoding f v w refl (ground arith) g) refl))
  ]
