-- ===== src/Writer/Skipped.antt =====
-- A READY that is written in two parts, in `dnswire_writer_write` of src/writer.c.
use dnswire.Prelude.{
  ◌<◌, ◌≡◌, ◌≢◌, ◌⊎◌, refl, ◌∙◌, subst, true, not, ◌&&◌, inl, inr, Option, Option-cases, ◌==◌,
  Bool-cases, arith,
}
use dnswire.Exec.{ret, Allows}
use dnswire.Exec.Rules.{Allows->>=, Allows-mono, later}
use dnswire.Result.{Result, error, again, need_more, bidirectional}
use dnswire.Alloc.{Allocator}
use dnswire.Io.{Io}
use dnswire.Buffer.{make_room, window, consume, rewind}
use dnswire.Tinyframe.{Tinyframe}
use dnswire.Dnstap.{Dnstap, Protobuf}
use dnswire.Decoder.{decode, decoded}
use dnswire.Encoder.Loop
use dnswire.Writer.{
  Writer, WriterState, encoding_ready, reading_accept, writing, encoding, Reply, writer_encoding,
  set_dnstap,
}
use dnswire.Writer.Decode.{
  on_bidirectional, on_again, on_need_more, on_accept, decode_input, decode_accept,
}
use dnswire.Writer.Pop.{is_error}
use dnswire.Writer.Write.{
  write_reading_accept, write_writing_ready, write_encoding_ready, write_writing, write_encoding,
  write_in, write,
}
use dnswire.Writer.Paths.{write_out-Allows, read_reply-Allows}
use dnswire.Writer.Cut.{write_as}
use dnswire.Sender.Order.{IsSending}

of_is_error : (r : Result) → is_error r ≡ true → r ≡ error
of_is_error error h = refl
of_is_error _ h = absurd (ground arith)

module _ (t : Tinyframe) where
  -- No reply is read or decoded, and none will be: the writer goes on with messages.
  pub record Skips (w v : Writer t) : Type 0 where
    pub sending : IsSending t v
    pub same_input : v.input ≡ w.input
    pub same_decoder : v.decoder ≡ w.decoder

  -- What a call of such a writer leaves.
  abbrev pub Deaf : Writer t → Reply t → Type 0
  Deaf w x = (x.0 ≡ error) ⊎ Skips w x.1

  -- Nothing is pending, or a reply is skipped.
  abbrev pub Splits : Writer t → Reply t → Type 0
  Splits w x = (x.1.output.left ≡ 0) ⊎ Deaf w x

  after_Skips : (u w v : Writer t) → Skips u w → Skips w v → Skips u v
  after_Skips u w v a b = record {
    sending = b.sending;
    same_input = b.same_input ∙ a.same_input;
    same_decoder = b.same_decoder ∙ a.same_decoder;
  }

module _ (t : Tinyframe) (pb : Protobuf) (al : Allocator) where
  on_accept-output :
      (r : Result) (w : Writer t) → Allows (λ x. x.1.output ≡ w.output) (on_accept t al r w)
  unfolding on_accept on_bidirectional on_again on_need_more
  on_accept-output bidirectional w = elim (Bool-cases w.decoder.accept_support_dnstap_protobuf) [
    | inl h ↦ rw h refl
    | inr h ↦ rw h refl
  ]
  on_accept-output again w =
      elim (Bool-cases ((rewind (consume w.input (decoded t w.decoder))).left == 0)) [
        | inl h ↦ rw h refl
        | inr h ↦ rw h refl
      ]
  on_accept-output need_more w =
      later (λ x. x.1.output ≡ w.output) (make_room al w.input) _
        λ m. elim (Option-cases m) [ inl e ↦ rw e refl | inr (b, e) ↦ rw e refl ]
  on_accept-output _ w = refl

  decode_accept-output :
      (w : Writer t) → Allows (λ x. x.1.output ≡ w.output) (decode_accept t pb al w)
  unfolding decode_accept decode_input
  decode_accept-output w =
      Allows->>= (λ x. x.1.output ≡ w.output) (λ x. x.1.output ≡ w.output) (decode_input t pb al w)
        _ (later _ (window w.input) _ λ s. later _ (decode t pb w.decoder s) _ λ x. refl)
        λ x e.
          subst (λ o. Allows (λ y. y.1.output ≡ o) (on_accept t al x.0 x.1)) e
            (on_accept-output x.0 x.1)

  reading_accept-output :
      (io : Io) (w : Writer t)
      → Allows (λ x. x.1.output ≡ w.output) (write_reading_accept t pb al io w)
  unfolding write_reading_accept
  reading_accept-output io w =
      read_reply-Allows t pb al (λ x. x.1.output ≡ w.output) io _ w refl λ i. decode_accept-output _

  -- `_encoding` changes the encoder and its buffer.
  abbrev Made : Writer t → Reply t → Type 0
  Made w x = (x.1.state ≡ w.state) × (x.1.input ≡ w.input) × (x.1.decoder ≡ w.decoder)

  encoding-Made : (w : Writer t) → Allows (Made w) (writer_encoding t pb al w)
  unfolding writer_encoding
  encoding-Made w = later _ (Loop.encoding t pb al w.encoder w.output) _ λ x. (refl, refl, refl)

  module _ (io : Io) where
    writing-Deaf :
        (u : Writer t) (res : Result) (w : Writer t)
        → w.state ≡ writing
        → w.input ≡ u.input
        → w.decoder ≡ u.decoder
        → Allows (Deaf t u) (write_writing t pb al io res w)
    unfolding write_writing
    writing-Deaf u res w s i d = write_out-Allows t pb al (Deaf t u) io _ w (inl refl) λ o.
        elim (Bool-cases (o.left == 0)) [
          | inl e ↦ rw e (inr (record { sending = inr refl; same_input = i; same_decoder = d }))
          | inr e ↦ rw e (inr (record { sending = inl s; same_input = i; same_decoder = d }))
        ]

    encoding-Deaf :
        (w : Writer t) → w.state ≡ encoding → Allows (Deaf t w) (write_encoding t pb al io w)
    unfolding write_encoding
    encoding-Deaf w s =
        Allows->>= (Made w) (Deaf t w) (writer_encoding t pb al w) _ (encoding-Made w) λ x g.
          elim (Bool-cases (not (is_error x.0) && not (x.1.output.left == 0))) [
            | inl f ↦ rw f (writing-Deaf w x.0 (record (x.1) { state = writing }) refl g.1 g.2)
            | inr f ↦
                rw f
                  (inr (record { sending = inr (g.0 ∙ s); same_input = g.1; same_decoder = g.2 }))
          ]

    -- Where the whole READY is written nothing is left, and a reply is read.
    ready-Splits : (w : Writer t) → Allows (Splits t w) (write_encoding_ready t pb al io w)
    unfolding write_encoding_ready write_writing_ready
    ready-Splits w =
        Allows->>= (Made w) (Splits t w) (writer_encoding t pb al w) _ (encoding-Made w) λ x g.
          elim (Bool-cases (not (is_error x.0) && not (x.1.output.left == 0))) [
            | inl f ↦ rw f (
                write_out-Allows t pb al (Splits t w) io _ (record (x.1) { state = writing })
                  (inr (inl refl))
                  λ o. elim (Bool-cases (o.left == 0)) [
                    | inl e ↦ rw e (
                        Allows-mono (λ y. y.1.output ≡ o) (Splits t w)
                          (write_reading_accept t pb al io
                            (record (x.1) { state = reading_accept; output = o }))
                          (reading_accept-output io
                            (record (x.1) { state = reading_accept; output = o }))
                          λ y h. inl (rw h (ground arith)))
                    | inr e ↦ rw e (
                        inr (
                          inr
                            (record { sending = inl refl; same_input = g.1; same_decoder = g.2 })))
                  ])
            | inr f ↦ rw f (elim (Bool-cases (is_error x.0)) [
              | inl e ↦ inr (inl (of_is_error x.0 e))
              | inr e ↦ inl (ground arith)
            ])
          ]

    module _ (io' : Io) where
      ready-Deaf :
          (w v : Writer t) {r : Result}
          → w.state ≡ encoding_ready
          → write t pb al io io' w ≡ ret (r, v)
          → r ≢ error
          → 0 < v.output.left
          → Skips t w v
      unfolding write_in
      ready-Deaf w v e h n l =
          elim (write_as t pb al io io' (Splits t w) WriterState.encoding_ready w e (ready-Splits w)
            h) [ inl z ↦ absurd (omega arith) | inr (inl q) ↦ absurd (n q) | inr (inr q) ↦ q ]

      next-Deaf :
          (w : Writer t) {x : Reply t} → IsSending t w → write t pb al io io' w ≡ ret x → Deaf t w x
      unfolding write_in
      next-Deaf w (inl s) h =
          write_as t pb al io io' (Deaf t w) WriterState.writing w s
            (writing-Deaf w again w s refl refl) h
      next-Deaf w (inr s) h =
          write_as t pb al io io' (Deaf t w) WriterState.encoding w s (encoding-Deaf w s) h

module _ (t : Tinyframe) (pb : Protobuf) where
  -- A call of `w` succeeds and leaves bytes of the READY, and these are the writers after that call
  -- and after further calls that do not fail, and new messages.
  pub data Later (w : Writer t) : Writer t → Type 0 where
    split :
        (al : Allocator) (io io' : Io) {v : Writer t} {r : Result}
        → write t pb al io io' w ≡ ret (r, v)
        → r ≢ error
        → 0 < v.output.left
        → Later w v
    message : {v : Writer t} (d : Option Dnstap) → Later w v → Later w (set_dnstap t v d)
    call :
        (al : Allocator) (io io' : Io) {v : Writer t} {x : Reply t}
        → Later w v
        → write t pb al io io' v ≡ ret x
        → x.0 ≢ error
        → Later w x.1

  -- A writer is about to encode a READY. Once `dnswire_writer_write` has written a part of it
  -- only, no later call before `dnswire_writer_stop` that does not fail reads or decodes a reply,
  -- whatever messages are set in between: the buffer for replies and the decoder stay as they
  -- were, and the writer is sending messages, in the state `writing` or `encoding`.
  pub Later-Skips : (w v : Writer t) → w.state ≡ encoding_ready → Later w v → Skips t w v
  unfolding set_dnstap
  Later-Skips w v e (split al io io' h n l) = ready-Deaf t pb al io io' w v e h n l
  Later-Skips w _ e (message {v} d p) =
      let k = Later-Skips w v e p in
      record { sending = k.sending; same_input = k.same_input; same_decoder = k.same_decoder }
  Later-Skips w _ e (call al io io' {v} {x} p h n) =
      let k = Later-Skips w v e p in
      elim (next-Deaf t pb al io io' v k.sending h) [
        | inl q ↦ absurd (n q)
        | inr q ↦ after_Skips t w v x.1 k q
      ]
