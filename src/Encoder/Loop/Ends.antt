-- ===== src/Encoder/Loop/Ends.antt =====
-- The end of the loop of `_encoding`, and what it adds to what is pending.
use mathlib.Core.List.{append-nil}
use dnswire.Prelude.{
  ℕ, zero, suc, ◌+◌, ◌-◌, ◌≤◌, ◌<◌, ◌≡◌, ◌≢◌, ◌⊎◌, refl, subst, sym, ◌∙◌, true, false, inl, inr,
  Option, none, some, [], ◌++◌, length, leb, Bool-cases, if◌then◌else◌, arith,
}
use dnswire.Prelude.Size.{sub_size_exact}
use dnswire.Exec.{ret, Bytes, Ensures}
use dnswire.Exec.Rules.{Ensures->>=, Ensures-mono, Ensures-eq}
use dnswire.Result.{Result, ok, error, again, need_more, have_dnstap, endofdata, bidirectional}
use dnswire.Alloc.{Allocator, IsAllocator}
use dnswire.Buffer.{Buffer, grown, resize, scribble, advance}
use dnswire.Buffer.Valid.{IsOutput, IsPresent, unsent}
use dnswire.Buffer.Drain.{Scribbled, scribble_lem, advance_lem}
use dnswire.Buffer.Grow.{EnlargedOr, resize-Enlarged}
use dnswire.Tinyframe.{Tinyframe, IsTinyframe}
use dnswire.Dnstap.{Dnstap, Protobuf, IsProtobuf}
use dnswire.Encoder.{Encoder, encoded, encode}
use dnswire.Encoder.Contract.{IsLinked, reports, is_foreign, Encoded, encode_contract}
use dnswire.Encoder.Loop.{is_set, on_encoded, encode_into, encoding}

pub is_set_of_IsPresent : (o : Option Bytes) → IsPresent o → is_set o ≡ true
is_set_of_IsPresent none i = absurd i
is_set_of_IsPresent (some p) i = refl

module _ (t : Tinyframe) (pb : Protobuf) where
  -- The bytes that an encoder stores in the last of some calls, which reports them, where each call
  -- before has asked for more room; and the encoder after that.
  pub data Emits : Encoder t → Encoder t → Bytes → Type 0 where
    last :
        (n : ℕ) {r : Result} {e e' : Encoder t} {out : Bytes}
        → encode t pb e n ≡ ret (r, e', out)
        → reports r ≡ true
        → Emits e e' out
    retry :
        (n : ℕ) {e e' e'' : Encoder t} {partial out : Bytes}
        → encode t pb e n ≡ ret (need_more, e', partial)
        → Emits e' e'' out
        → Emits e e'' out

  -- Nothing, if the encoder was not called or the result is an error, or else what the encoder has
  -- stored and reported.
  abbrev pub Says : Result → Encoder t → Encoder t → Bytes → Type 0
  Says res e e' out =
      ((out ≡ []) × ((e' ≡ e) ⊎ (res ≡ error))) ⊎ (Emits e e' out × (length out ≡ encoded t e'))

  pub Says-mono :
      (r s : Result) (e e' : Encoder t) (out : Bytes)
      → (r ≡ error → s ≡ error)
      → Says r e e' out
      → Says s e e' out
  Says-mono r s e e' out f (inl (z, inl p)) = inl (z, inl p)
  Says-mono r s e e' out f (inl (z, inr p)) = inl (z, inr (f p))
  Says-mono r s e e' out f (inr p) = inr p

  -- What the loop leaves: the result of a call of the encoder, or an error; behind the bytes that
  -- were pending stand those that the encoder stored in that call and reported, if it reported any.
  pub record Grown (e : Encoder t) (d : Option Dnstap) (pending : Bytes)
      (r : Result × Encoder t × Buffer) : Type 0 where
    pub valid : IsOutput r.2
    pub present : IsPresent r.2.buf
    pub own_result : is_foreign r.0 ≡ false
    pub settled : r.0 ≢ need_more
    pub same_dnstap : r.1.dnstap ≡ d
    pub queue :
        (out : Bytes) × (unsent r.2 ≡ pending ++ out)
        × (length out ≡ (if reports r.0 then encoded t r.1 else 0))
    pub emitted : reports r.0 ≡ true → Emits e r.1 (queue.0)

  failed :
      (e0 : Encoder t) (b : Buffer) (out : Bytes) (e : Encoder t) (c : Buffer)
      → Scribbled b out c
      → Grown e0 e.dnstap (unsent b) (error, e, c)
  failed e0 b out e c s = record {
    valid = s.valid;
    present = s.present;
    own_result = refl;
    settled = λ h. cc;
    same_dnstap = refl;
    queue = ([], s.kept ∙ sym (append-nil (unsent b)), refl);
    emitted = λ h. cc;
  }

  advanced :
      (e0 : Encoder t) (n : ℕ) (b : Buffer) (out : Bytes) (r : Result) (e : Encoder t) (c : Buffer)
      → Scribbled b out c
      → b.at + length out ≤ b.size
      → is_foreign r ≡ false
      → reports r ≡ true
      → encoded t e ≡ length out
      → encode t pb e0 n ≡ ret (r, e, out)
      → Grown e0 e.dnstap (unsent b) (r, e, advance c (encoded t e))
  unfolding advance
  advanced e0 m b out r e c s fits own rep n z =
      let (v, _, _) = advance_lem c (length out) s.valid (omega arith) in
      record {
        valid = rw n v;
        present = s.present;
        own_result = own;
        settled = λ h. cc (rw h at rep);
        same_dnstap = refl;
        queue = (out, rw n s.reported, rw rep (sym n));
        emitted = λ h. last m z h;
      }

module _ (t : Tinyframe) (pb : Protobuf) (al : Allocator) (tl : IsTinyframe t) (pl : IsProtobuf pb)
    (laws : IsAllocator al) where
  -- The induction hypothesis of the loop, for a round with less fuel.
  abbrev Ends : ℕ → Type 0
  Ends fuel =
      (e : Encoder t) (b : Buffer)
      → IsLinked e.dnstap
      → IsOutput b
      → IsPresent b.buf
      → b.at < b.size
      → b.max - b.size < fuel
      → Ensures (Grown t pb e e.dnstap (unsent b)) (encode_into t pb al fuel e b)

  -- The retry after the buffer has grown.
  retried :
      (fuel : ℕ)
      → Ends fuel
      → (e0 : Encoder t) (n : ℕ) (b : Buffer) (out : Bytes) (e : Encoder t) (c : Buffer)
      → IsLinked e.dnstap
      → encode t pb e0 n ≡ ret (need_more, e, out)
      → Scribbled b out c
      → b.at < b.size
      → b.max - b.size < suc fuel
      → (o : Option Buffer) → EnlargedOr c o
      → Ensures
          (Grown t pb e0 e.dnstap (unsent b))
          (elim o [ none ↦ ret (error, e, c) | some d ↦ encode_into t pb al fuel e d ])
  retried fuel ih e0 n b out e c l z s room less none g = failed t pb e0 b out e c s
  retried fuel ih e0 n b out e c l z s room less (some d) g =
      Ensures-mono (Grown t pb e e.dnstap (unsent d)) (Grown t pb e0 e.dnstap (unsent b)) _
        (ih e d l g.valid g.present (omega arith) (omega arith))
        (λ r w.
          let v = subst (λ p. Grown t pb e e.dnstap p r) (g.queue ∙ s.kept) w in
          record {
            valid = v.valid;
            present = v.present;
            own_result = v.own_result;
            settled = v.settled;
            same_dnstap = v.same_dnstap;
            queue = v.queue;
            emitted = λ h. retry n z (v.emitted h);
          })

  on_encoded_lem :
      (fuel : ℕ)
      → Ends fuel
      → (e0 : Encoder t) (n : ℕ) (b : Buffer) (out : Bytes) (r : Result) (e : Encoder t)
        (c : Buffer)
      → IsLinked e.dnstap
      → encode t pb e0 n ≡ ret (r, e, out)
      → Scribbled b out c
      → b.at + length out ≤ b.size
      → b.at < b.size
      → is_foreign r ≡ false
      → (reports r ≡ true → encoded t e ≡ length out)
      → b.max - b.size < suc fuel
      → Ensures
          (Grown t pb e0 e.dnstap (unsent b))
          (on_encoded t pb al (encode_into t pb al fuel) r e c)
  unfolding on_encoded
  on_encoded_lem fuel ih e0 n b out ok e c l z s fits room own counted less =
      advanced t pb e0 n b out ok e c s fits refl refl (counted refl) z
  on_encoded_lem fuel ih e0 n b out again e c l z s fits room own counted less =
      advanced t pb e0 n b out again e c s fits refl refl (counted refl) z
  on_encoded_lem fuel ih e0 n b out endofdata e c l z s fits room own counted less =
      advanced t pb e0 n b out endofdata e c s fits refl refl (counted refl) z
  on_encoded_lem fuel ih e0 n b out need_more e c l z s fits room own counted less =
      elim (Bool-cases (leb c.max c.size)) [
        | inl full ↦ rw full (failed t pb e0 b out e c s)
        | inr more ↦ rw more (
            retried fuel ih e0 n b out e c l z s room less (resize al c (grown c))
              (resize-Enlarged al c laws s.valid s.present (ground arith)))
      ]
  on_encoded_lem fuel ih e0 n b out error e c l z s fits room own counted less =
      failed t pb e0 b out e c s
  on_encoded_lem fuel ih e0 n b out have_dnstap e c l z s fits room own counted less = cc
  on_encoded_lem fuel ih e0 n b out bidirectional e c l z s fits room own counted less = cc

  encode_into_lem : (fuel : ℕ) → Ends fuel
  unfolding encode_into
  encode_into_lem zero e b l v i room less = absurd (omega arith)
  encode_into_lem (suc fuel) e b l v i room less =
      rw (is_set_of_IsPresent b.buf i, sub_size_exact b.size b.at v.inside (omega arith))
        (Ensures->>= (λ r. Encoded t e (b.size - b.at) r × (encode t pb e (b.size - b.at) ≡ ret r))
          (Grown t pb e e.dnstap (unsent b)) (encode t pb e (b.size - b.at)) _
          (Ensures-eq (Encoded t e (b.size - b.at)) (encode t pb e (b.size - b.at))
            (encode_contract t tl pb pl e (b.size - b.at) (omega arith) l))
          λ r we.
            let w = we.0 in
            Ensures->>= (Scribbled b r.2) (Grown t pb e e.dnstap (unsent b)) (scribble b r.2) _
              (scribble_lem b r.2 v i (omega arith))
              λ c s.
                subst
                  (λ d.
                    Ensures (Grown t pb e d (unsent b))
                      (on_encoded t pb al (encode_into t pb al fuel) r.0 r.1 c))
                  w.same_dnstap
                  (on_encoded_lem fuel (encode_into_lem fuel) e (b.size - b.at) b r.2 r.0 r.1 c
                    (subst IsLinked (sym w.same_dnstap) l) we.1 s (omega arith) room w.own_result
                    w.counted less))

  -- For a well-formed output buffer with a block and room, an encoder whose message has no
  -- dangling pointer, and libraries with the properties of the encoder's contract, the loop of
  -- `_encoding` returns without a fault and within its fuel, and never returns
  -- `dnswire_need_more`. If the result reports bytes, then behind those that were pending stand
  -- exactly the bytes that the encoder stored in its last call, after calls that asked for more
  -- room; else nothing is added. The buffer is well formed.
  pub encoding_lem :
      (e : Encoder t) (b : Buffer)
      → IsLinked e.dnstap
      → IsOutput b
      → IsPresent b.buf
      → b.at < b.size
      → Ensures (Grown t pb e e.dnstap (unsent b)) (encoding t pb al e b)
  unfolding encoding
  encoding_lem e b l v i room = encode_into_lem (suc (b.max - b.size)) e b l v i room (omega arith)
