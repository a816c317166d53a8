-- ===== src/Encoder/Loop/Stop.antt =====
-- The loop of `_encoding` when only the STOP is left to write.
use dnswire.Prelude.{
  ℕ, zero, suc, ◌-◌, ◌≡◌, ◌⊎◌, refl, inl, inr, leb, ◌==◌, Bool-cases, Option-cases, sym, subst,
  arith,
}
use dnswire.Prelude.Size.{sub_size}
use dnswire.Exec.{Exec, ret, fault, Bytes, Allows}
use dnswire.Exec.Rules.{Allows->>=}
use dnswire.Result.{Result, error, need_more, endofdata}
use dnswire.Alloc.{Allocator}
use dnswire.Buffer.{Buffer, resize, scribble, grown}
use dnswire.Tinyframe.{TinyframeResult, Tinyframe}
use dnswire.Dnstap.{Protobuf}
use dnswire.Encoder.{Encoder, EncoderState, control_stop, settle, encode_in, encode}
use dnswire.Encoder.Loop.{is_set, on_encoded, encode_into, encoding}

module _ (t : Tinyframe) (pb : Protobuf) (al : Allocator) where
  -- The session is over, or the call has failed.
  abbrev pub Over : Result × Encoder t × Buffer → Type 0
  Over r = (r.0 ≡ endofdata) ⊎ (r.0 ≡ error)

  abbrev OverOr : Result × Encoder t × Bytes → Type 0
  OverOr r = (r.0 ≡ endofdata) ⊎ ((r.0 ≡ error) ⊎ ((r.0 ≡ need_more) × (r.1.state ≡ control_stop)))

  settle-Over :
      (e : Encoder t) (o : TinyframeResult × t.Writer × Bytes)
      → e.state ≡ control_stop
      → OverOr (settle t e EncoderState.done endofdata o)
  unfolding settle
  settle-Over e (TinyframeResult.ok, w, out) s = inl refl
  settle-Over e (TinyframeResult.need_more, w, out) s = inr (inr (refl, s))
  settle-Over e (_, w, out) s = inr (inl refl)

  encode-Over :
      (e : Encoder t) (len : ℕ) → e.state ≡ control_stop → Allows OverOr (encode t pb e len)
  unfolding encode encode_in
  encode-Over e len s = elim (Bool-cases (len == 0)) [
    | inl z ↦ rw z tt
    | inr z ↦ rw z (
        subst (λ x. Allows OverOr (encode_in t pb x e len)) (sym s)
          (settle-Over e (t.write_control_stop e.writer len) s))
  ]

  on_encoded-Over :
      (retry : Encoder t → Buffer → Exec (Result × Encoder t × Buffer)) (r : Result) (e : Encoder t)
      (b : Buffer)
      → (r ≡ need_more → (c : Buffer) → Allows Over (retry e c))
      → (r ≡ endofdata) ⊎ ((r ≡ error) ⊎ (r ≡ need_more))
      → Allows Over (on_encoded t pb al retry r e b)
  unfolding on_encoded
  on_encoded-Over retry endofdata e b k h = inl refl
  on_encoded-Over retry error e b k h = inr refl
  on_encoded-Over retry need_more e b k h = elim (Bool-cases (leb b.max b.size)) [
    | inl f ↦ rw f (inr refl)
    | inr f ↦ rw f (elim (Option-cases (resize al b (grown b))) [
      | inl n ↦ rw n (inr refl)
      | inr (c, n) ↦ rw n (k refl c)
    ])
  ]
  on_encoded-Over retry _ e b k h = ground arith

  encode_into-Over :
      (fuel : ℕ) (e : Encoder t) (b : Buffer)
      → e.state ≡ control_stop
      → Allows Over (encode_into t pb al fuel e b)
  unfolding encode_into
  encode_into-Over zero e b s = tt
  encode_into-Over (suc fuel) e b s = elim (Bool-cases (is_set b.buf)) [
    | inl i ↦ rw i (
        Allows->>= OverOr Over (encode t pb e (sub_size b.size b.at)) _
          (encode-Over e (sub_size b.size b.at) s)
          λ r o.
            Allows->>= (λ c. Unit {0}) Over (scribble b r.2) _ (anything (scribble b r.2))
              λ c u.
                on_encoded-Over (encode_into t pb al fuel) r.0 r.1 c
                  (λ n d. encode_into-Over fuel r.1 d (ground arith)) (ground arith))
    | inr i ↦ rw i tt
  ]
    where
      anything : {A : Type 0} (m : Exec A) → Allows (λ c. Unit {0}) m
      anything (ret a) = tt
      anything (fault f) = tt

  -- It can only end the data or fail.
  pub encoding-Over :
      (e : Encoder t) (b : Buffer) → e.state ≡ control_stop → Allows Over (encoding t pb al e b)
  unfolding encoding
  encoding-Over e b s = encode_into-Over (suc (b.max - b.size)) e b s
