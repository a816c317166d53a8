-- ===== src/Writer/Replies.antt =====
-- What the writer does with a reply: the cases `decoding_accept` and `decoding_finish` of src/writer.c.
use dnswire.Prelude.{
  ℕ, ◌≤◌, ◌<◌, ◌≡◌, ◌≢◌, ◌⊎◌, inl, inr, refl, sym, subst, true, none, some, length, drop, arith,
}
use dnswire.Exec.{Exec, Bytes, Ensures}
use dnswire.Exec.Rules.{Ensures->>=, Ensures-mono}
use dnswire.Result.{Result, error, again, need_more, endofdata, bidirectional}
use dnswire.Alloc.{Allocator, IsAllocator}
use dnswire.Buffer.{Buffer, consume, rewind, make_room}
use dnswire.Buffer.Valid.{IsInput, unread}
use dnswire.Buffer.Fill.{Consumed, consume_lem, window_lem, length-unread}
use dnswire.Buffer.Room.{RoomyOr, Roomy, make_room_lem}
use dnswire.Tinyframe.{Tinyframe, IsTinyframe}
use dnswire.Dnstap.{Protobuf}
use dnswire.Decoder.{Decoder, decoded, decode}
use dnswire.Decoder.Contract.{consumes, Decoded, decode_contract}
use dnswire.Writer.{Writer, WriterState, reading_accept, Reply}
use dnswire.Writer.Decode.{
  on_bidirectional, on_again, on_need_more, on_accept, on_finish, decode_input, decode_accept,
  decode_finish,
}
use dnswire.Writer.Duplex.{decodes, IsDuplex}

module _ (t : Tinyframe) where
  -- How many bytes went from the front: none, or those that the decoder reported, if it needs no
  -- more.
  abbrev pub Dropped : Reply t → ℕ → Type 0
  Dropped x k = (k ≡ 0) ⊎ ((x.0 ≢ need_more) × (k ≡ decoded t x.1.decoder))

  -- After a step that began with the unread bytes `before`: the writer is well formed unless the
  -- result is an error, what is unread is what was, less what was decoded from the front, and
  -- nothing else that is read or sent has changed.
  pub record Answered (w : Writer t) (before : Bytes) (x : Reply t) : Type 0 where
    pub valid : x.0 ≢ error → IsDuplex t x.1
    pub same_output : x.1.output ≡ w.output
    pub same_encoder : x.1.encoder ≡ w.encoder
    pub queue : (k : ℕ) × (unread x.1.input ≡ drop k before) × Dropped x k

module _ (t : Tinyframe) (w : Writer t) (v : IsDuplex t w) (busy : decodes w.state ≡ true) where
  input : IsInput w.input
  input = v.basic.input (v.awaiting (ground arith))

  module _ (within : decoded t w.decoder ≤ w.input.left) where
    consumed :
        Consumed w.input (decoded t w.decoder) (rewind (consume w.input (decoded t w.decoder)))
    consumed = consume_lem w.input (decoded t w.decoder) input within

    on_bidirectional-Answered :
        w.state ≡ WriterState.decoding_accept → Answered t w (unread w.input) (on_bidirectional t w)
    unfolding on_bidirectional
    on_bidirectional-Answered s = record {
      valid = ground (arith, consumed, v);
      same_output = ground arith;
      same_encoder = ground arith;
      queue =
          (decoded t w.decoder, ground (arith, consumed), inr ((λ h. ground arith), ground arith));
    }

    on_again-Answered : Answered t w (unread w.input) (on_again t w)
    unfolding on_again
    on_again-Answered = record {
      valid = ground (arith, consumed, v);
      same_output = ground arith;
      same_encoder = ground arith;
      queue =
          (decoded t w.decoder, ground (arith, consumed), inr ((λ h. ground arith), ground arith));
    }

  failed-Answered : Answered t w (unread w.input) (error, w)
  failed-Answered = record {
    valid = λ h. absurd (h refl);
    same_output = refl;
    same_encoder = refl;
    queue = (0, refl, inl refl);
  }

  Roomy-Answered :
      (b : Buffer)
      → Roomy w.input b
      → Answered t w (unread w.input) (need_more, record w { input = b; state = reading_accept })
  Roomy-Answered b r = record {
    valid = λ h. ground (arith, v, r);
    same_output = refl;
    same_encoder = refl;
    queue = (0, r.queue, inl refl);
  }

  on_need_more-Answered :
      (al : Allocator)
      → IsAllocator al
      → Ensures (Answered t w (unread w.input)) (on_need_more t al w)
  unfolding on_need_more
  on_need_more-Answered al laws =
      Ensures->>= (RoomyOr w.input) (Answered t w (unread w.input)) (make_room al w.input) _
        (make_room_lem al w.input laws input)
        (elim [ none ↦ λ r. failed-Answered | some b ↦ λ r. Roomy-Answered b r ])

  on_accept-Answered :
      (al : Allocator) (x : Result)
      → IsAllocator al
      → w.state ≡ WriterState.decoding_accept
      → (consumes x ≡ true → decoded t w.decoder ≤ w.input.left)
      → Ensures (Answered t w (unread w.input)) (on_accept t al x w)
  unfolding on_accept
  on_accept-Answered al bidirectional laws s h = on_bidirectional-Answered (h refl) s
  on_accept-Answered al again laws s h = on_again-Answered (h refl)
  on_accept-Answered al need_more laws s h = on_need_more-Answered al laws
  on_accept-Answered al _ laws s h = failed-Answered

  on_finish-Answered :
      (al : Allocator) (x : Result)
      → IsAllocator al
      → w.state ≡ WriterState.decoding_finish
      → Ensures (Answered t w (unread w.input)) (on_finish t al x w)
  unfolding on_finish
  on_finish-Answered al endofdata laws s = record {
    valid = λ h. ground (arith, v);
    same_output = refl;
    same_encoder = refl;
    queue = (0, refl, inl refl);
  }
  on_finish-Answered al need_more laws s = on_need_more-Answered al laws
  on_finish-Answered al _ laws s = failed-Answered

-- The decoder's answer changes nothing but the decoder.
abbrev Decided : (t : Tinyframe) → Writer t → Reply t → Type 0
Decided t w x =
    (x.1 ≡ record w { decoder = x.1.decoder })
    × (consumes x.0 ≡ true → decoded t x.1.decoder ≤ w.input.left)

module _ (t : Tinyframe) (pb : Protobuf) (al : Allocator) (tl : IsTinyframe t)
    (laws : IsAllocator al) where
  decode_input_lem :
      (w : Writer t)
      → IsInput w.input
      → 0 < w.input.left
      → Ensures (Decided t w) (decode_input t pb al w)
  unfolding decode_input
  decode_input_lem w v h =
      let n : length (unread w.input) ≡ w.input.left = length-unread w.input v in
      rw (window_lem w.input v) (
        Ensures->>= (Decoded t (length (unread w.input))) (Decided t w)
          (decode t pb w.decoder (unread w.input)) _
          (decode_contract t pb w.decoder (unread w.input) tl (omega arith))
          λ x d. (refl, λ c. omega (arith, d.within c)))

  with_decoder :
      (w : Writer t) (d : Decoder t) → IsDuplex t w → IsDuplex t (record w { decoder = d })
  with_decoder w d v = ground arith

  of_decoder :
      (w : Writer t) (d : Decoder t) (m : Exec (Reply t))
      → Ensures (Answered t (record w { decoder = d }) (unread w.input)) m
      → Ensures (Answered t w (unread w.input)) m
  of_decoder w d m h =
      Ensures-mono (Answered t (record w { decoder = d }) (unread w.input))
        (Answered t w (unread w.input)) m h
        λ x a. record {
          valid = a.valid;
          same_output = a.same_output;
          same_encoder = a.same_encoder;
          queue = a.queue;
        }

  -- The decoding steps return, without a fault.
  pub decode_accept-Answered :
      (w : Writer t)
      → IsDuplex t w
      → w.state ≡ WriterState.decoding_accept
      → Ensures (Answered t w (unread w.input)) (decode_accept t pb al w)
  unfolding decode_accept
  decode_accept-Answered w v s =
      Ensures->>= (Decided t w) (Answered t w (unread w.input)) (decode_input t pb al w) _
        (decode_input_lem w (v.basic.input (v.awaiting (rw s refl))) (v.waiting (rw s refl)))
        λ x a.
          subst (λ q. Ensures (Answered t w (unread w.input)) (on_accept t al x.0 q)) (sym a.0)
            (of_decoder w x.1.decoder _ (
              on_accept-Answered t (record w { decoder = x.1.decoder })
                (with_decoder w x.1.decoder v) (rw s refl) al x.0 laws s a.1))

  pub decode_finish-Answered :
      (w : Writer t)
      → IsDuplex t w
      → w.state ≡ WriterState.decoding_finish
      → Ensures (Answered t w (unread w.input)) (decode_finish t pb al w)
  unfolding decode_finish
  decode_finish-Answered w v s =
      Ensures->>= (Decided t w) (Answered t w (unread w.input)) (decode_input t pb al w) _
        (decode_input_lem w (v.basic.input (v.awaiting (rw s refl))) (v.waiting (rw s refl)))
        λ x a.
          subst (λ q. Ensures (Answered t w (unread w.input)) (on_finish t al x.0 q)) (sym a.0)
            (of_decoder w x.1.decoder _ (
              on_finish-Answered t (record w { decoder = x.1.decoder })
                (with_decoder w x.1.decoder v) (rw s refl) al x.0 laws s))
