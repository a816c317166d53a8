-- ===== src/Sender/Order.antt =====
-- What one call of `dnswire_writer_write` does before the stream is stopped.
use dnswire.Prelude.{
  ◌<◌, ◌≡◌, ◌≢◌, ◌⊎◌, refl, ap, ◌∙◌, not, ◌&&◌, inl, inr, ◌==◌, Bool-cases, arith,
}
use dnswire.Exec.{Allows, Ensures}
use dnswire.Exec.Rules.{Ensures->>=, Ensures-mono, Ensures-Allows, Allows->>=}
use dnswire.Result.{Result, error}
use dnswire.Alloc.{Allocator, IsAllocator}
use dnswire.Io.{Io, IsIo}
use dnswire.Buffer.{drain}
use dnswire.Tinyframe.{Tinyframe, IsTinyframe}
use dnswire.Dnstap.{Protobuf, IsProtobuf}
use dnswire.Encoder.Paths
use dnswire.Encoder.Loop
use dnswire.Encoder.Loop.Order.{encoding-Follows}
use dnswire.Writer.{Writer, writing, encoding, Reply, writer_encoding}
use dnswire.Writer.Pop.{is_error}
use dnswire.Writer.Write.{write_writing, write_encoding}
use dnswire.Writer.Duplex.{IsPeer}
use dnswire.Writer.Descriptor.{write_out_lem}
use dnswire.Writer.Encoding.{Encoding, writer_encoding_lem}
use dnswire.Writer.Outcome.{IsPeer-IsSender, Encoding-IsPeer}

module _ (t : Tinyframe) where
  abbrev pub IsSending : Writer t → Type 0
  IsSending w = (w.state ≡ writing) ⊎ (w.state ≡ encoding)

  -- The result is `res` and less is pending, or it is an error.
  pub record Writes (res : Result) (w : Writer t) (x : Reply t) : Type 0 where
    pub result : (x.0 ≡ res) ⊎ (x.0 ≡ error)
    pub sending : x.0 ≢ error → IsSending x.1
    pub less : x.0 ≢ error → x.1.output.left < w.output.left
    pub same_encoder : x.1.encoder ≡ w.encoder

  -- The encoder has taken a step, and its bytes are on their way.
  pub record Encodes (w : Writer t) (x : Reply t) : Type 0 where
    pub step : x.0 ≢ error → Paths.Step w.encoder.state x.0 x.1.encoder.state
    pub sending : x.0 ≢ error → IsSending x.1

module _ (t : Tinyframe) (pb : Protobuf) (al : Allocator) (tl : IsTinyframe t) (pl : IsProtobuf pb)
    (laws : IsAllocator al) (io : Io) (il : IsIo io) where
  pub write_writing-Writes :
      (res : Result) (w : Writer t)
      → IsPeer t w
      → w.state ≡ writing
      → Ensures (Writes t res w) (write_writing t pb al io res w)
  unfolding write_writing
  write_writing-Writes res w v s =
      write_out_lem t pb al io il (Writes t res w) _ w v
        (record {
          result = inr refl;
          sending = λ h. absurd (h refl);
          less = λ h. absurd (h refl);
          same_encoder = refl;
        })
        λ n e d p. elim (Bool-cases ((drain w.output n).left == 0)) [
          | inl f ↦ rw f (record {
            result = inl refl;
            sending = λ h. inr refl;
            less = λ h. omega (arith, d.amount);
            same_encoder = refl;
          })
          | inr f ↦ rw f (record {
            result = inl refl;
            sending = λ h. inl s;
            less = λ h. omega (arith, d.amount);
            same_encoder = refl;
          })
        ]

  writer_encoding-Follows :
      (w : Writer t)
      → Allows (λ x. Paths.Step w.encoder.state x.0 x.1.encoder.state) (writer_encoding t pb al w)
  unfolding writer_encoding
  writer_encoding-Follows w =
      Allows->>= (λ x. Paths.Step w.encoder.state x.0 x.1.state) _
        (Loop.encoding t pb al w.encoder w.output) _ (encoding-Follows t pb al w.encoder w.output)
        λ x p. p

  pub write_encoding-Encodes :
      (w : Writer t)
      → IsPeer t w
      → w.state ≡ encoding
      → w.output.left ≡ 0
      → Ensures (Encodes t w) (write_encoding t pb al io w)
  unfolding write_encoding
  write_encoding-Encodes w v s z =
      Ensures->>=
        (λ x. Encoding t pb al tl pl laws w x × Paths.Step w.encoder.state x.0 x.1.encoder.state)
        (Encodes t w) (writer_encoding t pb al w) _
        (Ensures-Allows (Encoding t pb al tl pl laws w) _ _
          (writer_encoding_lem t pb al tl pl laws w (IsPeer-IsSender t pb al tl pl laws v) z)
          (writer_encoding-Follows w))
        λ x g.
          let p : IsPeer t x.1 = Encoding-IsPeer t pb al tl pl laws w x v g.0 in
          elim (Bool-cases (not (is_error x.0) && not (x.1.output.left == 0))) [
            | inl e ↦ rw e (
                Ensures-mono (Writes t x.0 (record (x.1) { state = writing })) (Encodes t w) _
                  (write_writing-Writes x.0 (record (x.1) { state = writing }) (ground (arith, p))
                    refl)
                  λ y h. record {
                    step = λ n. elim h.result [
                      | inl q ↦ rw (q, h.same_encoder) g.1
                      | inr q ↦ absurd (n q)
                    ];
                    sending = h.sending;
                  })
            | inr e ↦
                rw e
                  (record { step = λ n. g.1; sending = λ n. inr (ap (λ y. y.state) g.0.same ∙ s) })
          ]
