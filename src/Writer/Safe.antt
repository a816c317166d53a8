-- ===== src/Writer/Safe.antt =====
-- `dnswire_writer_pop` of src/writer.c as a whole, in a session of one direction.
use mathlib.Core.List.{append-nil}
use dnswire.Prelude.{
  ℕ, ◌≤◌, ◌<◌, ◌≡◌, refl, sym, subst, [], true, false, not, ◌||◌, inl, Option, length, ◌++◌, ◌==◌,
  arith,
}
use dnswire.Exec.{Exec, ret, Bytes, Ensures}
use dnswire.Exec.Rules.{Ensures-mono}
use dnswire.Result.{error, again}
use dnswire.Alloc.{Allocator, IsAllocator}
use dnswire.Buffer.Valid.{unsent}
use dnswire.Tinyframe.{Tinyframe, IsTinyframe}
use dnswire.Dnstap.{Protobuf, IsProtobuf}
use dnswire.Encoder.Loop.{is_set}
use dnswire.Encoder.Loop.Ends.{Says, is_set_of_IsPresent}
use dnswire.Writer.{Writer, WriterState}
use dnswire.Writer.Pop.{
  Call, Given, PopReply, pop_rest, pop_stopping, pop_in, orig_len, clear_len, pop,
}
use dnswire.Writer.Valid.{sends, idle, stops, IsWriter}
use dnswire.Writer.Pending.{Handed}
use dnswire.Writer.Rest.{Gave, Popped, nothing-Handed, pop_writing_lem, pop_writing_stop_lem}
use dnswire.Writer.Encoding.{pop_encoding_lem, pop_encoding_stop_lem}

module _ (t : Tinyframe) (pb : Protobuf) (al : Allocator) (tl : IsTinyframe t) (pl : IsProtobuf pb)
    (laws : IsAllocator al) where
  -- The cases that do not encode.
  plain :
      (g : Given) (w : Writer t) (m : Exec (PopReply t))
      → Ensures (Gave t (unsent w.output) g.len w.encoder) m
      → Ensures (Popped t pb w g.len) m
  plain g w m h =
      Ensures-mono (Gave t (unsent w.output) g.len w.encoder) (Popped t pb w g.len) m h λ x k.
        record {
          valid = k.valid;
          handed = (
            [],
            subst (λ u. Handed t u g.len x.1) (sym (append-nil (unsent w.output))) k.handed,
            inl (refl, inl k.same_encoder),
          );
        }

  -- Where a call begins does not matter, but for the bytes that are pending.
  again_for :
      (g : Given) (w y : Writer t) (m : Exec (PopReply t))
      → y.output ≡ w.output
      → y.encoder ≡ w.encoder
      → Ensures (Popped t pb y g.len) m
      → Ensures (Popped t pb w g.len) m
  again_for g w y m e f h = Ensures-mono (Popped t pb y g.len) (Popped t pb w g.len) m h λ x k.
      record {
        valid = k.valid;
        handed =
            subst
              (λ o.
                (out : Bytes) × Handed t (unsent o ++ out) g.len x.1
                × Says t pb x.0 w.encoder x.1.writer.encoder out)
              e
              (subst
                (λ q.
                  (out : Bytes) × Handed t (unsent y.output ++ out) g.len x.1
                  × Says t pb x.0 q x.1.writer.encoder out)
                f k.handed);
      }

  pop_in_lem :
      (s : WriterState) (g : Given) (c : Call t)
      → s ≡ c.writer.state
      → IsWriter t c.writer
      → c.writer.popped ≡ 0
      → g.len ≤ length c.data_out
      → (s ≡ WriterState.stopping → c.writer.output.left ≡ 0)
      → Ensures (Popped t pb c.writer g.len) (pop_in t pb al g s c)
  unfolding pop_in pop_stopping pop_rest
  pop_in_lem WriterState.encoding g c e v z r k =
      pop_encoding_lem t pb al tl pl laws g c (record { basic = ground (arith, v); room = r }) z
        (sym e) (v.quiet (subst (λ s. idle s ≡ true) e refl))
  pop_in_lem WriterState.writing g c e v z r k =
      plain g c.writer _
        (pop_writing_lem t pb al g again c (record { basic = ground (arith, v); room = r }) (sym e))
  pop_in_lem WriterState.stopping g c e v z r k =
      let z0 : (c.writer.output.left == 0) ≡ true = ground (arith, k refl) in
      rw z0 (
        again_for g c.writer (record (c.writer) { state = WriterState.encoding_stop }) _ refl refl
          (pop_encoding_stop_lem t pb al tl pl laws g
            (record c { writer = record (c.writer) { state = WriterState.encoding_stop } })
            (record { basic = ground (arith, v); room = r }) z
            (v.stopped (subst (λ s. stops s ≡ true) e refl)) (k refl)))
  pop_in_lem WriterState.encoding_stop g c e v z r k =
      pop_encoding_stop_lem t pb al tl pl laws g c (record { basic = ground (arith, v); room = r })
        z (v.stopped (subst (λ s. stops s ≡ true) e refl))
        (v.quiet (subst (λ s. idle s ≡ true) e refl))
  pop_in_lem WriterState.writing_stop g c e v z r k =
      plain g c.writer _ (
        pop_writing_stop_lem t pb al g c (record { basic = ground (arith, v); room = r }) z (sym e))
  pop_in_lem WriterState.done g c e v z r k = plain g c.writer (ret (error, c)) (record {
    valid = λ n. v;
    handed = nothing-Handed t (unsent c.writer.output) g.len c z refl;
    same_encoder = refl;
  })
  pop_in_lem _ g c e v z r k =
      let q : false ≡ true = subst (λ s. sends s ≡ true) (sym e) v.sending in ground arith

  -- For a well-formed writer in a session of one direction, libraries with the properties in
  -- `IsTinyframe`, `IsProtobuf` and `IsAllocator`, and room for `len` > 0 bytes at `data`, where
  -- nothing is pending if the state is `stopping`, `dnswire_writer_pop` returns, without a fault.
  -- The first `popped` bytes of `data` followed by what is still pending are then, in order, the
  -- bytes that were pending, followed by nothing, if the encoder was not called or the result is
  -- `dnswire_error`, or else by the bytes that the encoder stored in the last of some calls and
  -- reported, where each call before that had asked for more room. Unless the result is
  -- `dnswire_error`, the writer is well formed again.
  pub pop_lem :
      (w : Writer t) (data_out : Bytes) (len : ℕ) (in_data : Option Bytes) (in_len : Option ℕ)
      → IsWriter t w
      → 0 < len
      → len ≤ length data_out
      → (w.state ≡ WriterState.stopping → w.output.left ≡ 0)
      → Ensures (Popped t pb w len) (pop t pb al w data_out len in_data in_len)
  unfolding pop
  pop_lem w data_out len in_data in_len v p r k =
      let positive : (len == 0) ≡ false = ground arith in
      let given : (not w.bidirectional || is_set in_data) ≡ true = rw v.one_way refl in
      rw (positive, is_set_of_IsPresent w.output.buf v.present, given)
        (again_for (record { len = len; in_data = in_data; in_len_orig = orig_len in_len }) w
          (record w { popped = 0 }) _ refl refl
          (pop_in_lem w.state
            (record { len = len; in_data = in_data; in_len_orig = orig_len in_len })
            (record {
              writer = record w { popped = 0 };
              data_out = data_out;
              in_len = clear_len in_len;
            })
            refl (ground (arith, v)) refl r k))
