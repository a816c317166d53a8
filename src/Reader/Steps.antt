-- ===== src/Reader/Steps.antt =====
-- The reader after each answer of the decoder.
use dnswire.Prelude.{
  ◌≤◌, ◌<◌, ◌≡◌, refl, sym, subst, Bool, true, false, inl, inr, ◌≢◌, none, some, length,
  if◌then◌else◌, arith,
}
use dnswire.Exec.{Ensures}
use dnswire.Exec.Rules.{Ensures->>=}
use dnswire.Result.{Result, ok, error, again, need_more, have_dnstap, endofdata, bidirectional}
use dnswire.Alloc.{Allocator, IsAllocator}
use dnswire.Buffer.{Buffer, consume, rewind, make_room}
use dnswire.Buffer.Valid.{IsInput, unread}
use dnswire.Buffer.Fill.{Consumed, consume_lem, window_lem, length-unread}
use dnswire.Buffer.Room.{RoomyOr, Roomy, make_room_lem}
use dnswire.Tinyframe.{Tinyframe, IsTinyframe}
use dnswire.Dnstap.{Protobuf}
use dnswire.Decoder.{Decoder, decoded, decode}
use dnswire.Decoder.Contract.{consumes, Decoded, decode_contract}
use dnswire.Reader.{Reader, ReaderState, reading_control, reading, Reply}
use dnswire.Reader.Decode.{
  past, on_bidirectional, on_need_more, on_first_dnstap, on_endofdata, on_control, on_data,
  decode_input, decode_control, decode_data,
}
use dnswire.Reader.Valid.{decodes, replies, IsReader, Stepped}

not_dnstap : (more : Bool) → (if more then again else need_more) ≢ have_dnstap
not_dnstap true = λ h. cc
not_dnstap false = λ h. cc

module _ (t : Tinyframe) (r : Reader t) (v : IsReader t r) (busy : decodes r.state ≡ true) where
  module _ (within : decoded t r.decoder ≤ r.input.left) where
    consumed :
        Consumed r.input (decoded t r.decoder) (rewind (consume r.input (decoded t r.decoder)))
    consumed = consume_lem r.input (decoded t r.decoder) v.basic.input within

    on_bidirectional-Stepped : Stepped t (unread r.input) r.pushed (on_bidirectional t r)
    unfolding on_bidirectional past
    on_bidirectional-Stepped = record {
      valid = ground (arith, consumed);
      same_pushed = ground arith;
      queue = (
        decoded t r.decoder,
        ground (arith, consumed),
        record {
          message = λ h. ground arith;
          part = λ h d. ground arith;
          waits = λ h. ground arith;
          reported = inr (ground arith);
        },
      );
    }

    past-Stepped :
        (idle : ReaderState) (x : Result)
        → x ≢ need_more
        → replies idle ≡ false
        → decodes idle ≡ false
        → Stepped t (unread r.input) r.pushed (x, past t idle r)
    unfolding past
    past-Stepped idle x nm p q = record {
      valid = ground (arith, consumed);
      same_pushed = ground arith;
      queue = (
        decoded t r.decoder,
        ground (arith, consumed),
        record {
          message = λ h. ground arith;
          part = λ h d. ground arith;
          waits = λ h. ground arith;
          reported = inr (ground arith);
        },
      );
    }

    on_first_dnstap-Stepped : Stepped t (unread r.input) r.pushed (on_first_dnstap t r)
    unfolding on_first_dnstap
    on_first_dnstap-Stepped = record {
      valid = ground (arith, consumed);
      same_pushed = ground arith;
      queue = (
        decoded t r.decoder,
        ground (arith, consumed),
        record {
          message = λ h. ground arith;
          part = λ h d. ground arith;
          waits = λ h. ground arith;
          reported = inr (ground arith);
        },
      );
    }

  Roomy-Stepped :
      (idle : ReaderState) (x : Result) (b : Buffer)
      → x ≢ have_dnstap
      → replies idle ≡ false
      → decodes idle ≡ false
      → Roomy r.input b
      → Stepped t (unread r.input) r.pushed (x, record r { input = b; state = idle })
  Roomy-Stepped idle x b nd p q w = record {
    valid = ground arith;
    same_pushed = refl;
    queue = (
      0,
      w.queue,
      record {
        message = λ h. absurd (nd h);
        part = λ h d. cc;
        waits = λ h. refl;
        reported = inl refl;
      },
    );
  }

  failed-Stepped : Stepped t (unread r.input) r.pushed (error, r)
  failed-Stepped = record {
    valid = λ h. absurd (h refl);
    same_pushed = refl;
    queue = (
      0,
      refl,
      record { message = λ h. cc; part = λ h d. cc; waits = λ h. refl; reported = inl refl },
    );
  }

  on_need_more-Stepped :
      (al : Allocator) (idle : ReaderState) (more : Bool)
      → IsAllocator al
      → replies idle ≡ false
      → decodes idle ≡ false
      → Ensures (Stepped t (unread r.input) r.pushed) (on_need_more t al idle more r)
  unfolding on_need_more
  on_need_more-Stepped al idle more laws p q =
      Ensures->>= (RoomyOr r.input) (Stepped t (unread r.input) r.pushed) (make_room al r.input) _
        (make_room_lem al r.input laws v.basic.input)
        (elim [
          | none ↦ λ w. failed-Stepped
          | some b ↦
              λ w. Roomy-Stepped idle (if more then again else need_more) b (not_dnstap more) p q w
        ])

  on_endofdata-Stepped : Stepped t (unread r.input) r.pushed (on_endofdata t r)
  unfolding on_endofdata
  on_endofdata-Stepped = record {
    valid = ground arith;
    same_pushed = ground arith;
    queue = (
      0,
      ground arith,
      record {
        message = λ h. ground arith;
        part = λ h d. ground arith;
        waits = λ h. refl;
        reported = inl refl;
      },
    );
  }

  on_control-Stepped :
      (al : Allocator) (more : Bool) (x : Result)
      → IsAllocator al
      → (consumes x ≡ true → decoded t r.decoder ≤ r.input.left)
      → Ensures (Stepped t (unread r.input) r.pushed) (on_control t al more x r)
  unfolding on_control
  on_control-Stepped al more bidirectional laws h = on_bidirectional-Stepped (h refl)
  on_control-Stepped al more again laws h =
      past-Stepped (h refl) reading_control again (λ e. ground arith) refl refl
  on_control-Stepped al more need_more laws h =
      on_need_more-Stepped al reading_control more laws refl refl
  on_control-Stepped al more have_dnstap laws h = on_first_dnstap-Stepped (h refl)
  on_control-Stepped al more endofdata laws h = on_endofdata-Stepped
  on_control-Stepped al more ok laws h = failed-Stepped
  on_control-Stepped al more error laws h = failed-Stepped

  on_data-Stepped :
      (al : Allocator) (more : Bool) (x : Result)
      → IsAllocator al
      → (consumes x ≡ true → decoded t r.decoder ≤ r.input.left)
      → Ensures (Stepped t (unread r.input) r.pushed) (on_data t al more x r)
  unfolding on_data
  on_data-Stepped al more again laws h =
      past-Stepped (h refl) reading again (λ e. ground arith) refl refl
  on_data-Stepped al more need_more laws h = on_need_more-Stepped al reading more laws refl refl
  on_data-Stepped al more have_dnstap laws h =
      past-Stepped (h refl) reading have_dnstap (λ e. ground arith) refl refl
  on_data-Stepped al more endofdata laws h = on_endofdata-Stepped
  on_data-Stepped al more bidirectional laws h = failed-Stepped
  on_data-Stepped al more ok laws h = failed-Stepped
  on_data-Stepped al more error laws h = failed-Stepped

-- The decoder's answer changes nothing but the decoder.
abbrev Answered : (t : Tinyframe) → Reader t → Reply t → Type 0
Answered t r x =
    (x.1 ≡ record r { decoder = x.1.decoder })
    × (consumes x.0 ≡ true → decoded t x.1.decoder ≤ r.input.left)

module _ (t : Tinyframe) (pb : Protobuf) (al : Allocator) (tl : IsTinyframe t)
    (al_laws : IsAllocator al) where
  decode_input_lem :
      (r : Reader t)
      → IsInput r.input
      → 0 < r.input.left
      → Ensures (Answered t r) (decode_input t pb al r)
  unfolding decode_input
  decode_input_lem r v h =
      let n : length (unread r.input) ≡ r.input.left = length-unread r.input v in
      rw (window_lem r.input v) (
        Ensures->>= (Decoded t (length (unread r.input))) (Answered t r)
          (decode t pb r.decoder (unread r.input)) _
          (decode_contract t pb r.decoder (unread r.input) tl (omega arith))
          λ x d. (refl, λ c. omega (arith, d.within c)))

  with_decoder :
      (r : Reader t) (d : Decoder t) → IsReader t r → IsReader t (record r { decoder = d })
  with_decoder r d v = ground arith

  -- The decoding steps return, without a fault.
  pub decode_control-Stepped :
      (more : Bool) (r : Reader t)
      → IsReader t r
      → decodes r.state ≡ true
      → Ensures (Stepped t (unread r.input) r.pushed) (decode_control t pb al more r)
  unfolding decode_control
  decode_control-Stepped more r v busy =
      Ensures->>= (Answered t r) (Stepped t (unread r.input) r.pushed) (decode_input t pb al r) _
        (decode_input_lem r v.basic.input (v.waiting busy))
        λ x a.
          subst (λ q. Ensures (Stepped t (unread r.input) r.pushed) (on_control t al more x.0 q))
            (sym a.0)
            (on_control-Stepped t (record r { decoder = x.1.decoder })
              (with_decoder r x.1.decoder v) busy al more x.0 al_laws a.1)

  pub decode_data-Stepped :
      (more : Bool) (r : Reader t)
      → IsReader t r
      → decodes r.state ≡ true
      → Ensures (Stepped t (unread r.input) r.pushed) (decode_data t pb al more r)
  unfolding decode_data
  decode_data-Stepped more r v busy =
      Ensures->>= (Answered t r) (Stepped t (unread r.input) r.pushed) (decode_input t pb al r) _
        (decode_input_lem r v.basic.input (v.waiting busy))
        λ x a.
          subst (λ q. Ensures (Stepped t (unread r.input) r.pushed) (on_data t al more x.0 q))
            (sym a.0)
            (on_data-Stepped t (record r { decoder = x.1.decoder }) (with_decoder r x.1.decoder v)
              busy al more x.0 al_laws a.1)
