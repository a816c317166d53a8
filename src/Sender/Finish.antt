-- ===== src/Sender/Finish.antt =====
-- The loop of examples/sender.c, with a message without dangling pointers in the place of the one
-- that `create_dnstap` makes.
use dnswire.Prelude.{
  ℕ, zero, suc, ◌<◌, ◌≡◌, ◌≢◌, refl, ap, ◌∙◌, inl, inr, some, Option-cases, arith,
}
use dnswire.Exec.{ret}
use dnswire.Result.{Result, ok, error, again}
use dnswire.Alloc.{Allocator, IsAllocator}
use dnswire.Tinyframe.{Tinyframe, IsTinyframe}
use dnswire.Dnstap.{Dnstap, Protobuf, IsProtobuf}
use dnswire.Encoder.{EncoderState, encoder_initializer}
use dnswire.Encoder.Contract.{IsLinked}
use dnswire.Encoder.Paths
use dnswire.Writer.{
  Writer, WriterState, writing, encoding, Reply, writer_defaults, init, set_dnstap,
}
use dnswire.Writer.Write.{write_in}
use dnswire.Writer.Duplex.{IsDuplex}
use dnswire.Writer.Sessions.{started, given, Reached-IsDuplex}
use dnswire.Writer.Liveness.{Answers, write_with, next-IsDuplex, write_as}
use dnswire.Sender.Rounds.{Finishes, Goes-Finishes, stop-Finishes}
use dnswire.Sender.Order.{Writes, Encodes, write_writing-Writes, write_encoding-Encodes}

frames_ok :
    (s s' : EncoderState) → s ≡ EncoderState.frames → Paths.Step s ok s' → s' ≡ EncoderState.frames
frames_ok s s' e p = grind arith

frames_again : (s s' : EncoderState) → s ≡ EncoderState.frames → Paths.Step s again s' → ⊥
frames_again s s' e p = grind arith

start_ok : (s s' : EncoderState) → s ≡ EncoderState.control_start → Paths.Step s ok s' → ⊥
start_ok s s' e p = grind arith

start_again :
    (s s' : EncoderState)
    → s ≡ EncoderState.control_start
    → Paths.Step s again s'
    → s' ≡ EncoderState.frames
start_again s s' e p = grind arith

module _ (t : Tinyframe) (pb : Protobuf) (tl : IsTinyframe t) (pl : IsProtobuf pb) where
  after_encode :
      (w : Writer t) (a : Answers) (x : Reply t)
      → w.state ≡ encoding
      → IsDuplex t w
      → write_with t pb a w ≡ ret x
      → Encodes t w x
  unfolding write_in
  after_encode w a x s d h =
      write_as t pb tl pl a (Encodes t w) WriterState.encoding w x d s
        (write_encoding-Encodes t pb a.al tl pl a.laws a.io a.io_laws w d.basic s
          (d.quiet (rw s refl)))
        h

  after_write :
      (w : Writer t) (a : Answers) (x : Reply t)
      → w.state ≡ writing
      → IsDuplex t w
      → write_with t pb a w ≡ ret x
      → Writes t again w x
  unfolding write_in
  after_write w a x s d h =
      write_as t pb tl pl a (Writes t again w) WriterState.writing w x d s
        (write_writing-Writes t pb a.al tl pl a.laws a.io a.io_laws again w d.basic s) h

  next :
      (w : Writer t) (a : Answers) (r : Result) (v : Writer t)
      → IsDuplex t w
      → write_with t pb a w ≡ ret (r, v)
      → r ≢ error
      → IsDuplex t v
  next w a r v d h n = next-IsDuplex t pb tl pl a w (r, v) d h n

  -- START is written, and nothing is pending.
  encoding-Finishes :
      (w : Writer t)
      → w.state ≡ encoding
      → w.encoder.state ≡ EncoderState.frames
      → IsDuplex t w
      → Finishes t pb w
  encoding-Finishes w s e d = Goes-Finishes t pb tl pl w (record {
    valid = d;
    after_ok = λ a v h.
        stop-Finishes t pb tl pl v
          (frames_ok w.encoder.state v.encoder.state e
            ((after_encode w a (ok, v) s d h).step λ q. ground arith))
          (next w a ok v d h λ q. ground arith);
    after_again = λ a v h. absurd (
        frames_again w.encoder.state v.encoder.state e
          ((after_encode w a (again, v) s d h).step λ q. ground arith));
  })

  -- START is written, and bytes are pending.
  writing-Finishes :
      (n : ℕ) (w : Writer t)
      → w.output.left < n
      → w.state ≡ writing
      → w.encoder.state ≡ EncoderState.frames
      → IsDuplex t w
      → Finishes t pb w
  writing-Finishes zero w l s e d = absurd (omega arith)
  writing-Finishes (suc n) w l s e d = Goes-Finishes t pb tl pl w (record {
    valid = d;
    after_ok = λ a v h. absurd (elim ((after_write w a (ok, v) s d h).result) [
      | inl q ↦ ground arith
      | inr q ↦ ground arith
    ]);
    after_again = λ a v h.
        let k = after_write w a (again, v) s d h in
        let u = next w a again v d h λ q. ground arith in
        let f : v.encoder.state ≡ EncoderState.frames = ap (λ y. y.state) k.same_encoder ∙ e in
        let m = k.less λ q. ground arith in
        elim (k.sending λ q. ground arith) [
          | inl q ↦ writing-Finishes n v (omega arith) q f u
          | inr q ↦ encoding-Finishes v q f u
        ];
  })

  start-Finishes :
      (w : Writer t)
      → w.state ≡ encoding
      → w.encoder.state ≡ EncoderState.control_start
      → IsDuplex t w
      → Finishes t pb w
  start-Finishes w s e d = Goes-Finishes t pb tl pl w (record {
    valid = d;
    after_ok = λ a v h. absurd (
        start_ok w.encoder.state v.encoder.state e
          ((after_encode w a (ok, v) s d h).step λ q. ground arith));
    after_again = λ a v h.
        let k = after_encode w a (again, v) s d h in
        let u = next w a again v d h λ q. ground arith in
        let f = start_again w.encoder.state v.encoder.state e (k.step λ q. ground arith) in
        elim (k.sending λ q. ground arith) [
          | inl q ↦ writing-Finishes (suc v.output.left) v (omega arith) q f u
          | inr q ↦ encoding-Finishes v q f u
        ];
  })

  init-state :
      (al : Allocator) (d : Dnstap)
      → ((set_dnstap t (init t pb al).1 (some d)).state ≡ encoding)
        × ((set_dnstap t (init t pb al).1 (some d)).encoder.state ≡ EncoderState.control_start)
  unfolding init set_dnstap writer_defaults encoder_initializer
  init-state al d = elim (Option-cases (al.malloc (writer_defaults t pb).output.size)) [
    | inl e ↦ rw (e, init, set_dnstap) (refl, refl)
    | inr (p, e) ↦ rw (e, init, set_dnstap) (refl, refl)
  ]

  -- For libraries with the properties in `IsTinyframe` and `IsProtobuf`, after a
  -- `dnswire_writer_init` that succeeds and `dnswire_writer_set_dnstap` with a message without
  -- dangling pointers, which that of `create_dnstap` is not, the loop of examples/sender.c ends:
  -- each round returns without a fault, stopping the writer never fails, and there are only
  -- finitely many rounds, whatever the heap and the descriptor answer in each of them, as long as
  -- these answer within what they are asked for.
  pub loop-Finishes :
      (al : Allocator) (d : Dnstap)
      → IsAllocator al
      → (init t pb al).0 ≡ ok
      → IsLinked (some d)
      → Finishes t pb (set_dnstap t (init t pb al).1 (some d))
  loop-Finishes al d laws h l =
      let w = set_dnstap t (init t pb al).1 (some d) in
      let s = init-state al d in
      start-Finishes w s.0 s.1
        (Reached-IsDuplex t pb tl pl w (given (some d) l (started al laws h)))
