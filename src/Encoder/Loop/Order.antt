-- ===== src/Encoder/Loop/Order.antt =====
-- `_encoding` of src/reader.c and of src/writer.c follows the diagram of the encoder's states.
use dnswire.Prelude.{
  ℕ, zero, suc, ◌≡◌, refl, sym, subst, inl, inr, leb, Bool-cases, Option-cases, arith,
}
use dnswire.Exec.{Exec, Allows, assert}
use dnswire.Exec.Rules.{Allows->>=, later, of_ret}
use dnswire.Prelude.Size.{sub_size}
use dnswire.Result.{Result, ok, error, again, need_more, endofdata, have_dnstap, bidirectional}
use dnswire.Alloc.{Allocator}
use dnswire.Buffer.{Buffer, grown, resize, scribble}
use dnswire.Tinyframe.{Tinyframe}
use dnswire.Dnstap.{Protobuf}
use dnswire.Encoder.{Encoder, EncoderState, encode}
use dnswire.Encoder.Loop.{is_set, Reply, on_encoded, encode_into, encoding}
use dnswire.Encoder.Paths.{Step, fail, encode-Step}

waited : (s s' : EncoderState) → Step s need_more s' → s' ≡ s
waited s s' p = grind arith

module _ (t : Tinyframe) (pb : Protobuf) (al : Allocator) where
  abbrev Follows : EncoderState → Reply t pb al → Type 0
  Follows s x = Step s x.0 x.1.state

  on_encoded-Follows :
      (s : EncoderState) (retry : Encoder t → Buffer → Exec (Reply t pb al)) (r : Result)
      (e : Encoder t) (b : Buffer)
      → Step s r e.state
      → ((c : Buffer) → e.state ≡ s → Allows (Follows s) (retry e c))
      → Allows (Follows s) (on_encoded t pb al retry r e b)
  unfolding on_encoded
  on_encoded-Follows s retry need_more e b p k =
      let q = waited s e.state p in
      elim (Bool-cases (leb b.max b.size)) [
        | inl h ↦ rw h (subst (λ x. Step s error x) (sym q) fail)
        | inr h ↦ rw h (elim (Option-cases (resize al b (grown b))) [
          | inl n ↦ rw n (subst (λ x. Step s error x) (sym q) fail)
          | inr (c, n) ↦ rw n (k c q)
        ])
      ]
  on_encoded-Follows s retry ok e b p k = p
  on_encoded-Follows s retry again e b p k = p
  on_encoded-Follows s retry endofdata e b p k = p
  on_encoded-Follows s retry error e b p k = p
  on_encoded-Follows s retry have_dnstap e b p k = p
  on_encoded-Follows s retry bidirectional e b p k = p

  encode_into-Follows :
      (n : ℕ) (s : EncoderState) (e : Encoder t) (b : Buffer)
      → e.state ≡ s
      → Allows (Follows s) (encode_into t pb al n e b)
  unfolding encode_into
  encode_into-Follows zero s e b h = tt
  encode_into-Follows (suc n) s e b h = later (Follows s) (assert (is_set b.buf)) _ λ u.
      Allows->>= (λ r. Step s r.0 r.1.state) (Follows s) (encode t pb e (sub_size b.size b.at)) _
        (of_ret _ _
          λ r k. subst (λ x. Step x r.0 r.1.state) h (encode-Step t pb e (sub_size b.size b.at) k))
        λ r p. later (Follows s) (scribble b r.2) _ λ c.
          on_encoded-Follows s (encode_into t pb al n) r.0 r.1 c p
            λ d q. encode_into-Follows n s r.1 d q

  pub encoding-Follows :
      (e : Encoder t) (b : Buffer) → Allows (λ x. Step e.state x.0 x.1.state) (encoding t pb al e b)
  unfolding encoding
  encoding-Follows e b = encode_into-Follows _ e.state e b refl
