-- ===== src/Writer/Lost.antt =====
-- `dnswire_writer_pop` of src/writer.c in the state `stopping`, with bytes pending.
use Prim.Native.Nat.{min}
use dnswire.Prelude.{
  ℕ, ◌-◌, ◌≤◌, ◌<◌, ◌≡◌, ◌⊎◌, refl, subst, ap, ◌∙◌, [], true, false, not, ◌||◌, inl, inr, Option,
  length, drop, take, ◌++◌, ◌==◌, Bool-cases, arith, length-take,
}
use dnswire.Exec.{Bytes, contents, Ensures}
use dnswire.Exec.Rules.{Ensures->>=, Ensures-mono, length_stored}
use dnswire.Result.{error, endofdata}
use dnswire.Alloc.{Allocator, IsAllocator}
use dnswire.Buffer.{drain}
use dnswire.Buffer.Valid.{unsent}
use dnswire.Buffer.Drain.{Drained, drain_lem, length-unsent}
use dnswire.Tinyframe.{Tinyframe, IsTinyframe}
use dnswire.Dnstap.{Protobuf, IsProtobuf}
use dnswire.Encoder.{Encoder, control_stop, encoded}
use dnswire.Encoder.Loop.{is_set}
use dnswire.Encoder.Loop.Ends.{Emits, is_set_of_IsPresent}
use dnswire.Writer.{Writer, WriterState, writer_encoding}
use dnswire.Writer.Pop.{
  Call, Given, PopReply, pop_rest, after_stop, pop_writing_stop, pop_encoding_stop, pop_stopping,
  pop_in, orig_len, clear_len, pop,
}
use dnswire.Writer.Valid.{IsWriter}
use dnswire.Writer.Pending.{copied_out, Handed, pop_out_lem, copied_out-Handed}
use dnswire.Writer.Rest.{of_IsOneWay, IsOneWay, Gave, after_stop_lem, IsCall}
use dnswire.Writer.Encoding.{Encoding, Encoding-IsOneWay, writer_encoding-Over}

module _ (t : Tinyframe) (pb : Protobuf) where
  -- What the caller gets, and what is still pending, are only the bytes that the encoder `e` has
  -- stored and reported, unless it made none, or failed.
  pub data Lost (e : Encoder t) (len : ℕ) (x : PopReply t) : Type 0 where
    failed : x.0 ≡ error → Lost e len x
    none_made : encoded t x.1.writer.encoder ≡ 0 → Lost e len x
    overwritten :
        (out : Bytes) → Emits t pb e x.1.writer.encoder out → Handed t out len x.1 → Lost e len x

module _ (t : Tinyframe) (pb : Protobuf) (al : Allocator) (tl : IsTinyframe t) (pl : IsProtobuf pb)
    (laws : IsAllocator al) where
  -- The case `writing_stop` copies to the start of `data`, whatever is there already.
  rewritten :
      (g : Given) (c : Call t)
      → IsCall t pb al g c
      → c.writer.state ≡ WriterState.writing_stop
      → (out : Bytes) → unsent c.writer.output ≡ out
      → length out ≡ encoded t c.writer.encoder
      → (e0 : Encoder t) → Emits t pb e0 c.writer.encoder out
      → Ensures (Lost t pb e0 g.len) (pop_writing_stop t pb al g c)
  unfolding pop_writing_stop pop_rest after_stop
  rewritten g c v s out u m e0 em =
      let n = min c.writer.output.left g.len in
      let d : Drained c.writer.output n (drain c.writer.output n) =
        drain_lem c.writer.output n v.basic.output v.basic.present (omega arith) in
      let h : Handed t (unsent c.writer.output) g.len (copied_out t n c) =
        copied_out-Handed t c n g.len v.basic.output v.basic.present (omega arith) (omega arith) in
      let lo : length (unsent c.writer.output) ≡ c.writer.output.left =
        length-unsent c.writer.output v.basic.output v.basic.present in
      let k : length out ≡ c.writer.output.left =
        subst (λ x. length x ≡ c.writer.output.left) u lo in
      elim (Bool-cases (c.writer.output.left == 0)) [
        | inl e ↦ rw (e, v.basic.one_way) (none_made (ground arith))
        | inr e ↦
            rw (e, pop_out_lem t g c v.basic.output v.basic.present v.room)
              (elim (Bool-cases ((drain c.writer.output n).left == 0)) [
                | inl f ↦ rw f (
                    Ensures-mono (Gave t (unsent c.writer.output) g.len c.writer.encoder)
                      (Lost t pb e0 g.len) (after_stop t pb al g (copied_out t n c))
                      (after_stop_lem t pb al g (unsent c.writer.output) (copied_out t n c)
                        (ground (arith, d, v)) (ground arith) h)
                      λ x w.
                        overwritten out (rw w.same_encoder em)
                          (subst (λ y. Handed t y g.len x.1) u w.handed))
                | inr f ↦
                    rw f (overwritten out em (subst (λ y. Handed t y g.len (copied_out t n c)) u h))
              ])
      ]

  after_flush :
      (g : Given) (c : Call t)
      → IsCall t pb al g c
      → c.writer.encoder.state ≡ control_stop
      → c.writer.output.left ≡ 0
      → Ensures (Lost t pb c.writer.encoder g.len) (pop_encoding_stop t pb al g c)
  unfolding pop_encoding_stop
  after_flush g c v s l =
      Ensures->>=
        (λ x. Encoding t pb al tl pl laws c.writer x × ((x.0 ≡ endofdata) ⊎ (x.0 ≡ error)))
        (Lost t pb c.writer.encoder g.len) (writer_encoding t pb al c.writer) _
        (writer_encoding-Over t pb al tl pl laws c.writer (of_IsOneWay t v.basic) l s)
        λ x e.
          let base : IsOneWay t x.1 = Encoding-IsOneWay t pb al tl pl laws c.writer x v.basic e.0 in
          let empty : unsent c.writer.output ≡ [] =
            ap
              (λ n.
                take n
                  (drop (c.writer.output.at - c.writer.output.left) (contents c.writer.output.buf)))
              l in
          elim e.1 [
            | inl f ↦
                let (out, q, n) = e.0.grown.queue in
                rw f (
                  rewritten g
                    (record c { writer = record (x.1) { state = WriterState.writing_stop } })
                    (record { basic = ground (arith, base); room = v.room }) refl out
                    (q ∙ ap (λ y. y ++ out) empty) (rw f at n) c.writer.encoder
                    (e.0.grown.emitted (rw f refl)))
            | inr f ↦ rw f (failed refl)
          ]

  -- For a well-formed writer in a session of one direction that was stopped with bytes pending
  -- which all fit in `len`, and libraries with the properties in `IsTinyframe`, `IsProtobuf` and
  -- `IsAllocator`, `dnswire_writer_pop` returns, and unless it fails or the encoder reports no
  -- bytes, the first `popped` bytes of `data`, followed by what is still pending, are exactly the
  -- bytes that the encoder stored in its last call: the bytes that were pending are overwritten
  -- and not counted.
  pub pop-Lost :
      (w : Writer t) (data_out : Bytes) (len : ℕ) (in_data : Option Bytes) (in_len : Option ℕ)
      → IsWriter t w
      → len ≤ length data_out
      → w.state ≡ WriterState.stopping
      → 0 < w.output.left
      → w.output.left ≤ len
      → Ensures (Lost t pb w.encoder len) (pop t pb al w data_out len in_data in_len)
  unfolding pop pop_in pop_stopping pop_rest
  pop-Lost w data_out len in_data in_len v r s p fit =
      let positive : (len == 0) ≡ false = ground arith in
      let given : (not w.bidirectional || is_set in_data) ≡ true = rw v.one_way refl in
      let g : Given = record { len = len; in_data = in_data; in_len_orig = orig_len in_len } in
      let c : Call t = record {
        writer = record w { popped = 0 };
        data_out = data_out;
        in_len = clear_len in_len;
      } in
      let n = min w.output.left len in
      let d : Drained w.output n (drain w.output n) =
        drain_lem w.output n v.output v.present (omega arith) in
      let some_left : (w.output.left == 0) ≡ false = ground arith in
      let gone : (drain w.output n).left ≡ 0 = omega (arith, d.amount) in
      let none_left : ((drain w.output n).left == 0) ≡ true = ground arith in
      rw
        (
          positive,
          is_set_of_IsPresent w.output.buf v.present,
          given,
          ap (λ x. pop_in t pb al g x c) s,
          some_left,
          pop_out_lem t g c v.output v.present r,
          none_left,
        )
        (after_flush g
          (record (copied_out t n c) {
            writer = record ((copied_out t n c).writer) { state = WriterState.encoding_stop };
          })
          (record {
            basic = ground (arith, d, v);
            room = omega (
              arith,
              length_stored data_out 0 (take n (unsent w.output))
                  (omega (arith, length-take n (unsent w.output))),
            );
          })
          (v.stopped (rw s refl)) gone)
