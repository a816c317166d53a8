-- ===== src/Sender/Rounds.antt =====
-- The rounds of the loop of examples/sender.c.
use dnswire.Prelude.{◌≡◌, ◌≢◌, refl, sym, subst, ap, ◌∙◌, true, arith}
use dnswire.Exec.{ret, ◌>>=◌, Ensures}
use dnswire.Exec.Rules.{Ensures-ret}
use dnswire.Result.{Result, ok, again, endofdata}
use dnswire.Tinyframe.{Tinyframe, IsTinyframe}
use dnswire.Dnstap.{Protobuf, IsProtobuf}
use dnswire.Encoder
use dnswire.Encoder.{EncoderState, encoder_initializer, stop_in}
use dnswire.Writer.{Writer, Reply, stop, on_stop}
use dnswire.Writer.Duplex.{IsDuplex}
use dnswire.Writer.Outcome.{Wrote}
use dnswire.Writer.Total.{write_lem}
use dnswire.Writer.Sessions.{stop-IsDuplex}
use dnswire.Writer.Liveness.{Answers, write_with, Ends, ends, next-IsDuplex, stop-Ends}
use dnswire.Sender.{go_on, stopping_failed, is_ok, on_result, round}

of_is_ok : (r : Result) → is_ok r ≡ true → r ≡ ok
of_is_ok ok h = refl
of_is_ok _ h = absurd (ground arith)

module _ (t : Tinyframe) (pb : Protobuf) where
  -- Whatever is answered in each round, each returns, stopping does not fail, and there are only
  -- finitely many.
  pub data Finishes : Writer t → Type 0 where
    finishes :
        {w : Writer t}
        → ((a : Answers) → Ensures (λ x. x.0 ≢ stopping_failed) (round t pb a.al a.io a.io' w))
        → ((a : Answers) (v : Writer t)
            → round t pb a.al a.io a.io' w ≡ ret (go_on, v)
            → Finishes v)
        → Finishes w

  stop-frames : (w : Writer t) → w.encoder.state ≡ EncoderState.frames → is_ok (stop t w).0 ≡ true
  unfolding stop Encoder.stop stop_in on_stop
  stop-frames w e = rw e refl

  -- What the loop needs to go on after a call.
  pub record Goes (w : Writer t) : Type 0 where
    pub valid : IsDuplex t w
    pub after_ok :
        (a : Answers) (v : Writer t)
        → write_with t pb a w ≡ ret (ok, v)
        → (is_ok (stop t v).0 ≡ true) × Finishes (stop t v).1
    pub after_again :
        (a : Answers) (v : Writer t) → write_with t pb a w ≡ ret (again, v) → Finishes v

  does_not_fail :
      (w : Writer t) (a : Answers) (r : Result) (v : Writer t)
      → Goes w
      → write_with t pb a w ≡ ret (r, v)
      → (on_result t r v).0 ≢ stopping_failed
  unfolding on_result
  does_not_fail w a ok v g e = rw (g.after_ok a v e).0 (λ h. ground arith)
  does_not_fail w a again v g e = λ h. ground arith
  does_not_fail w a endofdata v g e = λ h. ground arith
  does_not_fail w a _ v g e = λ h. ground arith

  follows :
      (w : Writer t) (a : Answers) (r : Result) (v u : Writer t)
      → Goes w
      → write_with t pb a w ≡ ret (r, v)
      → on_result t r v ≡ (go_on, u)
      → Finishes u
  unfolding on_result
  follows w a ok v u g e h = subst Finishes (ap (λ y. y.1) h) (g.after_ok a v e).1
  follows w a again v u g e h = subst Finishes (ap (λ y. y.1) h) (g.after_again a v e)
  follows w a endofdata v u g e h = absurd (ground arith)
  follows w a _ v u g e h = absurd (ground arith)

  module _ (tl : IsTinyframe t) (pl : IsProtobuf pb) where
    returns :
        (a : Answers) (w : Writer t) → IsDuplex t w → (x : Reply t) × (write_with t pb a w ≡ ret x)
    unfolding write_with
    returns a w d =
        let (x, e, p) =
          Ensures-ret (Wrote t pb a.io a.io' w) _
            (write_lem t pb a.al tl pl a.laws a.io a.io' a.io_laws a.io'_laws w d) in
        (x, e)

    pub Goes-Finishes : (w : Writer t) → Goes w → Finishes w
    unfolding round write_with
    Goes-Finishes w g =
        finishes (λ a. let (x, e) = returns a w g.valid in rw e (does_not_fail w a x.0 x.1 g e))
          (λ a v h.
            let (x, e) = returns a w g.valid in
            follows w a x.0 x.1 v g e (
              subst (Ensures (λ y. on_result t x.0 x.1 ≡ y))
                (ap (λ m. m >>= λ y. ret (on_result t y.0 y.1)) (sym e) ∙ h) refl))

    -- After `dnswire_writer_stop` no more is needed.
    Ends-Finishes : (w : Writer t) → IsDuplex t w → Ends t pb w → Finishes w
    Ends-Finishes w d (ends f g) = Goes-Finishes w (record {
      valid = d;
      after_ok = λ a v h. absurd (f a (ok, v) h refl);
      after_again = λ a v h.
          Ends-Finishes v (next-IsDuplex t pb tl pl a w (again, v) d h λ q. ground arith) (g a v h);
    })

    -- The encoder is where a message is written, so stopping succeeds.
    pub stop-Finishes :
        (w : Writer t)
        → w.encoder.state ≡ EncoderState.frames
        → IsDuplex t w
        → (is_ok (stop t w).0 ≡ true) × Finishes (stop t w).1
    stop-Finishes w e d =
        let o = stop-frames w e in
        (
          o,
          Ends-Finishes (stop t w).1 (stop-IsDuplex t w d)
              (stop-Ends t pb tl pl w d (of_is_ok (stop t w).0 o)),
        )
