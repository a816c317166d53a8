-- ===== src/Writer/Cut.antt =====
-- A FINISH that arrives in pieces, in `dnswire_writer_write` of src/writer.c.
use dnswire.Prelude.{◌≡◌, ◌≢◌, ◌⊎◌, refl, sym, subst, inl, inr, Option-cases, arith}
use dnswire.Exec.{Exec, ret, assert, Allows}
use dnswire.Exec.Rules.{Allows->>=, later, of_ret}
use dnswire.Result.{Result, error, again, need_more, endofdata, bidirectional}
use dnswire.Alloc.{Allocator}
use dnswire.Io.{Io}
use dnswire.Buffer.{make_room, window}
use dnswire.Tinyframe.{Tinyframe}
use dnswire.Dnstap.{Protobuf}
use dnswire.Decoder.{DecoderState, decode}
use dnswire.Decoder.Paths.{Step, decode-Step}
use dnswire.Encoder.Loop.{is_set}
use dnswire.Writer.{Writer, WriterState, reading_accept, reading_finish, Reply}
use dnswire.Writer.Decode.{
  on_need_more, on_accept, on_finish, decode_input, decode_accept, decode_finish,
}
use dnswire.Writer.Write.{write_reading_accept, write_reading_finish, write_in, write}
use dnswire.Writer.Paths.{read_reply-Allows}

abbrev checking_finish : DecoderState
checking_finish = DecoderState.checking_finish

no_bidirectional : (s s' : DecoderState) → s ≡ checking_finish → Step s bidirectional s' → ⊥
no_bidirectional s s' e p = grind arith

no_again : (s s' : DecoderState) → s ≡ checking_finish → Step s again s' → ⊥
no_again s s' e p = grind arith

waited : (s s' : DecoderState) → s ≡ checking_finish → Step s need_more s' → s' ≡ checking_finish
waited s s' e p = grind arith

module _ (t : Tinyframe) where
  -- An ACCEPT is awaited, and the decoder awaits a FINISH.
  abbrev pub IsStuck : Writer t → Type 0
  IsStuck w = (w.state ≡ reading_accept) × (w.decoder.state ≡ checking_finish)

  -- What a call of such a writer leaves.
  abbrev pub Stays : Reply t → Type 0
  Stays x = (x.0 ≡ error) ⊎ ((x.0 ≡ need_more) × IsStuck x.1)

  -- A FINISH is complete, or the call fails, or more is needed for a FINISH.
  abbrev pub Cuts : Reply t → Type 0
  Cuts x = (x.0 ≡ endofdata) ⊎ Stays x

module _ (t : Tinyframe) (pb : Protobuf) (al : Allocator) where
  decode_input-Step :
      (w : Writer t)
      → Allows (λ x. Step w.decoder.state x.0 x.1.decoder.state) (decode_input t pb al w)
  unfolding decode_input
  decode_input-Step w = later _ (window w.input) _ λ s.
      Allows->>= (λ x. Step w.decoder.state x.0 x.1.state) _ (decode t pb w.decoder s) _
        (of_ret _ _ λ x h. decode-Step t pb w.decoder s h) λ x p. p

  on_need_more-Stays :
      (w : Writer t) → w.decoder.state ≡ checking_finish → Allows (Stays t) (on_need_more t al w)
  unfolding on_need_more
  on_need_more-Stays w e = later (Stays t) (make_room al w.input) _ λ m. elim (Option-cases m) [
    | inl h ↦ rw h (inl refl)
    | inr (b, h) ↦ rw h (inr (refl, (refl, e)))
  ]

  on_accept-Stays :
      (s : DecoderState) (r : Result) (w : Writer t)
      → s ≡ checking_finish
      → Step s r w.decoder.state
      → Allows (Stays t) (on_accept t al r w)
  unfolding on_accept
  on_accept-Stays s bidirectional w e p = absurd (no_bidirectional s w.decoder.state e p)
  on_accept-Stays s again w e p = absurd (no_again s w.decoder.state e p)
  on_accept-Stays s need_more w e p = on_need_more-Stays w (waited s w.decoder.state e p)
  on_accept-Stays s _ w e p = inl refl

  on_finish-Cuts :
      (s : DecoderState) (r : Result) (w : Writer t)
      → s ≡ checking_finish
      → Step s r w.decoder.state
      → Allows (Cuts t) (on_finish t al r w)
  unfolding on_finish
  on_finish-Cuts s endofdata w e p = inl refl
  on_finish-Cuts s need_more w e p =
      later_inr (on_need_more t al w) (on_need_more-Stays w (waited s w.decoder.state e p))
    where
      later_inr : (m : Exec (Reply t)) → Allows (Stays t) m → Allows (Cuts t) m
      later_inr (ret x) h = inr h
      later_inr (Exec.fault f) h = tt
  on_finish-Cuts s _ w e p = inr (inl refl)

  accept-Stays :
      (w : Writer t)
      → w.decoder.state ≡ checking_finish
      → Allows (Stays t) (decode_accept t pb al w)
  unfolding decode_accept
  accept-Stays w e =
      Allows->>= (λ x. Step w.decoder.state x.0 x.1.decoder.state) (Stays t)
        (decode_input t pb al w) _ (decode_input-Step w)
        λ x p. on_accept-Stays w.decoder.state x.0 x.1 e p

  finish-Cuts :
      (w : Writer t) → w.decoder.state ≡ checking_finish → Allows (Cuts t) (decode_finish t pb al w)
  unfolding decode_finish
  finish-Cuts w e =
      Allows->>= (λ x. Step w.decoder.state x.0 x.1.decoder.state) (Cuts t) (decode_input t pb al w)
        _ (decode_input-Step w) λ x p. on_finish-Cuts w.decoder.state x.0 x.1 e p

  module _ (io io' : Io) where
    pub write_as :
        (P : Reply t → Type 0) (s : WriterState) (w : Writer t) {x : Reply t}
        → w.state ≡ s
        → Allows P (write_in t pb al io io' s w)
        → write t pb al io io' w ≡ ret x
        → P x
    unfolding write
    write_as P s w e h k = subst (Allows P) k (
        later P (assert (is_set w.output.buf)) _
          λ u. subst (λ z. Allows P (write_in t pb al io io' z w)) (sym e) h)

    stuck-Stays :
        (w : Writer t) (x : Reply t) → IsStuck t w → write t pb al io io' w ≡ ret x → Stays t x
    unfolding write_in write_reading_accept
    stuck-Stays w x i h =
        write_as (Stays t) WriterState.reading_accept w i.0
          (read_reply-Allows t pb al (Stays t) io _ w (inl refl) λ b. accept-Stays _ i.1) h

    cut-Cuts :
        (w : Writer t) (x : Reply t)
        → w.state ≡ reading_finish
        → w.decoder.state ≡ checking_finish
        → write t pb al io io' w ≡ ret x
        → Cuts t x
    unfolding write_in write_reading_finish
    cut-Cuts w x s e h =
        write_as (Cuts t) WriterState.reading_finish w s
          (read_reply-Allows t pb al (Cuts t) io _ w (inr (inl refl)) λ b. finish-Cuts _ e) h

module _ (t : Tinyframe) (pb : Protobuf) where
  -- A call of `w` needs more data, and these are the writers after that call and after further
  -- calls that do not fail.
  pub data After (w : Writer t) : Writer t → Type 0 where
    cut :
        (al : Allocator) (io io' : Io) {v : Writer t}
        → write t pb al io io' w ≡ ret (need_more, v)
        → After w v
    further :
        (al : Allocator) (io io' : Io) {v : Writer t} {x : Reply t}
        → After w v
        → write t pb al io io' v ≡ ret x
        → x.0 ≢ error
        → After w x.1

  After-IsStuck :
      (w v : Writer t)
      → w.state ≡ reading_finish
      → w.decoder.state ≡ checking_finish
      → After w v
      → IsStuck t v
  After-IsStuck w v s e (cut al io io' h) = elim (cut-Cuts t pb al io io' w (need_more, v) s e h) [
    | inl q ↦ absurd (ground arith)
    | inr (inl q) ↦ absurd (ground arith)
    | inr (inr q) ↦ q.1
  ]
  After-IsStuck w _ s e (further al io io' {v} {x} a h n) =
      elim (stuck-Stays t pb al io io' v x (After-IsStuck w v s e a) h) [
        | inl q ↦ absurd (n q)
        | inr q ↦ q.1
      ]

  -- A writer awaits a FINISH, in the state `reading_finish`, and so does its decoder. Once
  -- `dnswire_writer_write` has asked for more data there, each later call that returns fails or
  -- asks for more data again, whatever comes in: the FINISH is never accepted, and no call returns
  -- `dnswire_endofdata`.
  pub write-After :
      (w v : Writer t) (al : Allocator) (io io' : Io) {x : Reply t}
      → w.state ≡ reading_finish
      → w.decoder.state ≡ checking_finish
      → After w v
      → write t pb al io io' v ≡ ret x
      → (x.0 ≡ error) ⊎ (x.0 ≡ need_more)
  write-After w v al io io' {x} s e a h =
      elim (stuck-Stays t pb al io io' v x (After-IsStuck w v s e a) h) [
        | inl q ↦ inl q
        | inr q ↦ inr q.0
      ]
