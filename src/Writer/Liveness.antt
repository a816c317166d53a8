-- ===== src/Writer/Liveness.antt =====
-- `dnswire_writer_write` of src/writer.c after `dnswire_writer_stop`, as long as it returns
-- `dnswire_again`.
use dnswire.Prelude.{ℕ, zero, suc, ◌<◌, ◌≡◌, ◌≢◌, refl, sym, subst, Bool, inl, inr, arith}
use dnswire.Exec.{Exec, ret, Ensures}
use dnswire.Result.{ok, error, again}
use dnswire.Alloc.{Allocator, IsAllocator}
use dnswire.Io.{Io, IsIo}
use dnswire.Tinyframe.{Tinyframe, IsTinyframe}
use dnswire.Dnstap.{Protobuf, IsProtobuf}
use dnswire.Encoder
use dnswire.Encoder.{EncoderState, stop_in}
use dnswire.Encoder.Loop.Ends.{is_set_of_IsPresent}
use dnswire.Writer.{
  Writer, WriterState, stopping, writing_stop, reading_finish, Reply, stop, on_stop,
}
use dnswire.Writer.Write.{write_in, write}
use dnswire.Writer.Duplex.{IsDuplex}
use dnswire.Writer.Outcome.{Wrote}
use dnswire.Writer.Total.{write_lem}
use dnswire.Writer.Sessions.{stop-IsDuplex}
use dnswire.Writer.Paths.{Step}
use dnswire.Writer.Diagram.{write-Step}
use dnswire.Writer.Closing.{Closed, Waits, Leaves, writing_stop-Closed, stopping-Closed}

-- What the heap and the descriptor answer in one call.
pub record Answers : Type 0 where
  pub al : Allocator
  pub io : Io
  pub io' : Io
  pub laws : IsAllocator al
  pub io_laws : IsIo io
  pub io'_laws : IsIo io'

module _ (t : Tinyframe) (pb : Protobuf) where
  unfoldable pub write_with : Answers → Writer t → Exec (Reply t)
  write_with a w = write t pb a.al a.io a.io' w

  -- Whatever is answered in each call, no result is `dnswire_ok`, and `dnswire_again` comes only
  -- finitely often in a row.
  pub data Ends : Writer t → Type 0 where
    ends :
        {w : Writer t}
        → ((a : Answers) (x : Reply t) → write_with a w ≡ ret x → x.0 ≢ ok)
        → ((a : Answers) (v : Writer t) → write_with a w ≡ ret (again, v) → Ends v)
        → Ends w

  not_ok : (b : Bool) (s s' : WriterState) → s ≡ reading_finish → Step b s ok s' → ⊥
  not_ok b s s' e p = grind arith

  not_again : (b : Bool) (s s' : WriterState) → s ≡ reading_finish → Step b s again s' → ⊥
  not_again b s s' e p = grind arith

  reading_finish-Ends : (w : Writer t) → w.state ≡ reading_finish → Ends w
  unfolding write_with
  reading_finish-Ends w e =
      ends
        (λ a x h o. not_ok w.bidirectional w.state x.1.state e (
          subst (λ r. Step w.bidirectional w.state r x.1.state) o
            (write-Step t pb a.al a.io a.io' w h)))
        (λ a v h.
          absurd
            (not_again w.bidirectional w.state v.state e (write-Step t pb a.al a.io a.io' w h)))

  module _ (tl : IsTinyframe t) (pl : IsProtobuf pb) where
    pub next-IsDuplex :
        (a : Answers) (w : Writer t) (x : Reply t)
        → IsDuplex t w
        → write_with a w ≡ ret x
        → x.0 ≢ error
        → IsDuplex t x.1
    unfolding write_with
    next-IsDuplex a w x d h =
        (subst (Ensures (Wrote t pb a.io a.io' w)) h
          (write_lem t pb a.al tl pl a.laws a.io a.io' a.io_laws a.io'_laws w d)).valid

    -- A call in the state `s`.
    pub write_as :
        (a : Answers) (Q : Reply t → Type 0) (s : WriterState) (w : Writer t) (x : Reply t)
        → IsDuplex t w
        → w.state ≡ s
        → Ensures Q (write_in t pb a.al a.io a.io' s w)
        → write_with a w ≡ ret x
        → Q x
    unfolding write_with write
    write_as a Q s w x d e h k = subst (Ensures Q) k (
        rw (is_set_of_IsPresent w.output.buf d.basic.present)
          (subst (λ z. Ensures Q (write_in t pb a.al a.io a.io' z w)) (sym e) h))

    writing_stop-Ends :
        (n : ℕ) (w : Writer t) → w.output.left < n → w.state ≡ writing_stop → IsDuplex t w → Ends w
    unfolding write_in
    writing_stop-Ends zero w l e d = absurd (omega arith)
    writing_stop-Ends (suc n) w l e d =
        let step : (a : Answers) (x : Reply t)
            → write_with a w ≡ ret x
            → Closed t (Waits t w.output.left) x =
          λ a x h.
            write_as a (Closed t (Waits t w.output.left)) WriterState.writing_stop w x d e
              (writing_stop-Closed t pb a.al tl pl a.laws a.io a.io_laws w d.basic e) h in
        ends (λ a x h. (step a x h).0)
          λ a v h. elim ((step a (again, v) h).1 refl) [
            | inl r ↦ reading_finish-Ends v r
            | inr r ↦
                writing_stop-Ends n v (omega arith) r.0
                  (next-IsDuplex a w (again, v) d h λ q. ground arith)
          ]

    stopping-Ends :
        (n : ℕ) (w : Writer t) → w.output.left < n → w.state ≡ stopping → IsDuplex t w → Ends w
    unfolding write_in
    stopping-Ends zero w l e d = absurd (omega arith)
    stopping-Ends (suc n) w l e d =
        let step : (a : Answers) (x : Reply t)
            → write_with a w ≡ ret x
            → Closed t (Leaves t w.output.left) x =
          λ a x h.
            write_as a (Closed t (Leaves t w.output.left)) WriterState.stopping w x d e
              (stopping-Closed t pb a.al tl pl a.laws a.io a.io' a.io_laws a.io'_laws w d.basic
                (d.stopped (rw e refl)) e)
              h in
        ends (λ a x h. (step a x h).0)
          λ a v h.
            let k = next-IsDuplex a w (again, v) d h λ q. ground arith in
            elim ((step a (again, v) h).1 refl) [
              | inl (inl r) ↦ reading_finish-Ends v r
              | inl (inr r) ↦ writing_stop-Ends (suc v.output.left) v (omega arith) r k
              | inr r ↦ stopping-Ends n v (omega arith) r.0 k
            ]

    stop_in-stopping :
        (w : Writer t) (s : EncoderState)
        → (on_stop t w (stop_in t s w.encoder)).0 ≡ ok
        → (on_stop t w (stop_in t s w.encoder)).1.state ≡ stopping
    unfolding stop_in on_stop
    stop_in-stopping w EncoderState.frames h = refl
    stop_in-stopping w _ h = ground arith

    -- For libraries with the properties in `IsTinyframe` and `IsProtobuf`, and a well-formed
    -- writer of either kind of session on which `dnswire_writer_stop` succeeds: of the calls of
    -- `dnswire_writer_write` that follow, up to the first that does not return `dnswire_again`,
    -- none returns `dnswire_ok`, and there are only finitely many, whatever the heap and the
    -- descriptor answer in each of them, as long as these answer within what they are asked for.
    -- What comes after another result, `dnswire_need_more` included, is not covered.
    pub stop-Ends : (w : Writer t) → IsDuplex t w → (stop t w).0 ≡ ok → Ends (stop t w).1
    unfolding stop Encoder.stop
    stop-Ends w d h =
        stopping-Ends (suc (stop t w).1.output.left) (stop t w).1 (omega arith)
          (stop_in-stopping w w.encoder.state h) (stop-IsDuplex t w d)
