-- ===== src/Reader/Paths.antt =====
-- The diagram of the states of a reader on a descriptor, with what each call of
-- `dnswire_reader_read` of src/reader.c returns.
use dnswire.Prelude.{◌≡◌, refl, Bool, true, false, inl, inr, Option-cases, ◌==◌, Bool-cases}
use dnswire.Exec.{Allows}
use dnswire.Exec.Rules.{later}
use dnswire.Result.{Result, error, again, need_more, have_dnstap, endofdata}
use dnswire.Result.Failing.{Or}
use dnswire.Alloc.{Allocator}
use dnswire.Buffer.{make_room, consume, rewind}
use dnswire.Decoder.{decoded}
use dnswire.Tinyframe.{Tinyframe}
use dnswire.Reader.{
  Reader, ReaderState, reading_control, decoding_control, encoding_accept, writing_accept, reading,
  decoding, encoding_finish, writing_finish, done, Reply,
}
use dnswire.Reader.Decode.{
  past, on_bidirectional, on_need_more, on_first_dnstap, on_endofdata, on_control, on_data,
}

-- The stream has ended, in a session of both directions or of one.
pub data Ended : Bool → Result → ReaderState → Type 0 where
  both : Ended true again encoding_finish
  one : Ended false endofdata done

-- What comes of the control frames at the start; READY is answered if that is allowed.
pub data Control (b : Bool) : Bool → Result → ReaderState → Type 0 where
  part : {a : Bool} → Control b a again decoding_control
  empty : {a : Bool} → Control b a again reading_control
  more : {a : Bool} → Control b a need_more reading_control
  ready : Control b true again encoding_accept
  message : {a : Bool} → Control b a have_dnstap decoding
  last_message : {a : Bool} → Control b a have_dnstap reading
  ended : {a : Bool} {r : Result} {s : ReaderState} → Ended b r s → Control b a r s

-- What comes of the frames.
pub data Data (b : Bool) : Result → ReaderState → Type 0 where
  part : Data b again decoding
  empty : Data b again reading
  more : Data b need_more reading
  message : Data b have_dnstap decoding
  last_message : Data b have_dnstap reading
  ended : {r : Result} {s : ReaderState} → Ended b r s → Data b r s

-- `b` is `is_bidirectional`, and `a` is `allow_bidirectional`.
pub data Step (b a : Bool) : ReaderState → Result → ReaderState → Type 0 where
  fail : {s s' : ReaderState} → Step b a s error s'
  control_read : {r : Result} {s : ReaderState} → Control b a r s → Step b a reading_control r s
  control_decoded : {r : Result} {s : ReaderState} → Control b a r s → Step b a decoding_control r s
  data_read : {r : Result} {s : ReaderState} → Data b r s → Step b a reading r s
  data_decoded : {r : Result} {s : ReaderState} → Data b r s → Step b a decoding r s
  accept_part : Step b a encoding_accept again writing_accept
  accept : Step b a encoding_accept again reading_control
  accept_rest : Step b a writing_accept again writing_accept
  accept_end : Step b a writing_accept again reading_control
  finish_part : Step b a encoding_finish again writing_finish
  finish : Step b a encoding_finish endofdata done
  finish_rest : Step b a writing_finish again writing_finish
  finish_end : Step b a writing_finish endofdata done

module _ (t : Tinyframe) where
  abbrev pub On : (Result → ReaderState → Type 0) → Reply t → Type 0
  On P x = Or P x.0 x.1.state

  -- `past` ends in the state `idle`, or in the one where it began.
  past-On :
      (P : Result → ReaderState → Type 0) (res : Result) (idle : ReaderState) (r : Reader t)
      → Or P res idle
      → Or P res r.state
      → On P (res, past t idle r)
  unfolding past
  past-On P res idle r p q =
      elim (Bool-cases ((rewind (consume r.input (decoded t r.decoder))).left == 0)) [
        | inl e ↦ rw e p
        | inr e ↦ rw e q
      ]

  on_endofdata-On :
      (P : Result → ReaderState → Type 0) (r : Reader t)
      → ((x : Result) (s : ReaderState) → Ended r.is_bidirectional x s → P x s)
      → On P (on_endofdata t r)
  unfolding on_endofdata
  on_endofdata-On P r k = elim (Bool-cases r.is_bidirectional) [
    | inl e ↦ rw e (k again encoding_finish (rw e both))
    | inr e ↦ rw e (k endofdata done (rw e one))
  ]

  on_need_more-On :
      (P : Result → ReaderState → Type 0) (al : Allocator) (idle : ReaderState) (r : Reader t)
      → P need_more idle
      → Allows (On P) (on_need_more t al idle false r)
  unfolding on_need_more
  on_need_more-On P al idle r p =
      later (On P) (make_room al r.input) _
        λ m. elim (Option-cases m) [ inl e ↦ rw e tt | inr (b, e) ↦ rw e p ]

  past-allow :
      (idle : ReaderState) (r : Reader t)
      → (past t idle r).allow_bidirectional ≡ r.allow_bidirectional
  unfolding past
  past-allow idle r =
      elim (Bool-cases ((rewind (consume r.input (decoded t r.decoder))).left == 0)) [
        | inl e ↦ rw e refl
        | inr e ↦ rw e refl
      ]

  on_bidirectional-On :
      (r : Reader t) → On (Control r.is_bidirectional r.allow_bidirectional) (on_bidirectional t r)
  unfolding on_bidirectional
  on_bidirectional-On r = elim (Bool-cases r.allow_bidirectional) [
    | inl a ↦ elim (Bool-cases r.decoder.ready_support_dnstap_protobuf) [
      | inl h ↦ rw (past-allow reading_control r, a, h) ready
      | inr h ↦ rw (past-allow reading_control r, a, h) tt
    ]
    | inr a ↦ rw (past-allow reading_control r, a) tt
  ]

  pub on_control-On :
      (al : Allocator) (x : Result) (r : Reader t)
      → r.state ≡ decoding_control
      → Allows (On (Control r.is_bidirectional r.allow_bidirectional)) (on_control t al false x r)
  unfolding on_control on_first_dnstap
  on_control-On al Result.bidirectional r e = on_bidirectional-On r
  on_control-On al Result.again r e =
      past-On (Control _ _) again reading_control r empty (rw e part)
  on_control-On al Result.need_more r e = on_need_more-On (Control _ _) al reading_control r more
  on_control-On al Result.have_dnstap r e =
      elim (Bool-cases ((rewind (consume r.input (decoded t r.decoder))).left == 0)) [
        | inl h ↦ rw h last_message
        | inr h ↦ rw h message
      ]
  on_control-On al Result.endofdata r e = on_endofdata-On (Control _ _) r λ x s. ended
  on_control-On al _ r e = tt

  pub on_data-On :
      (al : Allocator) (x : Result) (r : Reader t)
      → r.state ≡ decoding
      → Allows (On (Data r.is_bidirectional)) (on_data t al false x r)
  unfolding on_data
  on_data-On al Result.again r e = past-On (Data _) again reading r Data.empty (rw e Data.part)
  on_data-On al Result.need_more r e = on_need_more-On (Data _) al reading r Data.more
  on_data-On al Result.have_dnstap r e =
      past-On (Data _) have_dnstap reading r Data.last_message (rw e Data.message)
  on_data-On al Result.endofdata r e = on_endofdata-On (Data _) r λ x s. Data.ended
  on_data-On al _ r e = tt
