-- ===== src/Writer/Encoding.antt =====
-- `_encoding` of src/writer.c, and the cases of `dnswire_writer_pop` that call it.
use dnswire.Prelude.{
  ◌≡◌, ◌≢◌, ◌⊎◌, refl, sym, subst, ap, ◌∙◌, [], ◌∷◌, false, not, ◌&&◌, inl, inr, length, ◌++◌, ◌==◌,
  Bool-cases, arith,
}
use dnswire.Exec.{Bytes, Ensures}
use dnswire.Exec.Rules.{Ensures->>=, Ensures-mono, Ensures-Allows}
use dnswire.Result.{Result, error, need_more, endofdata}
use dnswire.Alloc.{Allocator, IsAllocator}
use dnswire.Buffer.Valid.{unsent}
use dnswire.Tinyframe.{Tinyframe, IsTinyframe}
use dnswire.Dnstap.{Protobuf, IsProtobuf}
use dnswire.Encoder.{control_stop}
use dnswire.Encoder.Contract.{IsLinked, reports, is_foreign}
use dnswire.Encoder.Loop.{encoding}
use dnswire.Encoder.Loop.Ends.{Says, Says-mono, Grown, encoding_lem}
use dnswire.Encoder.Loop.Stop.{Over, encoding-Over}
use dnswire.Writer.{Writer, WriterState, Reply, writer_encoding}
use dnswire.Writer.Pop.{Call, Given, PopReply, is_error, pop_encoding, pop_encoding_stop}
use dnswire.Writer.Pending.{Handed}
use dnswire.Writer.Rest.{
  IsSender, of_IsOneWay, IsOneWay, Gave, Popped, nothing-Handed, IsCall, pop_writing_lem,
  pop_writing_stop_lem,
}

module _ (t : Tinyframe) (pb : Protobuf) (al : Allocator) (tl : IsTinyframe t) (pl : IsProtobuf pb)
    (laws : IsAllocator al) where
  -- `_encoding` changes the encoder and the buffer only.
  pub record Encoding (w : Writer t) (x : Reply t) : Type 0 where
    pub same : x.1 ≡ record w { encoder = x.1.encoder; output = x.1.output }
    pub grown :
        Grown t pb w.encoder w.encoder.dnstap (unsent w.output) (x.0, x.1.encoder, x.1.output)

  pub writer_encoding_lem :
      (w : Writer t)
      → IsSender t w
      → w.output.left ≡ 0
      → Ensures (Encoding w) (writer_encoding t pb al w)
  unfolding writer_encoding
  writer_encoding_lem w v z =
      Ensures->>= (Grown t pb w.encoder w.encoder.dnstap (unsent w.output)) (Encoding w)
        (encoding t pb al w.encoder w.output) _
        (encoding_lem t pb al tl pl laws w.encoder w.output v.linked v.output v.present
          (omega arith))
        λ x g. record { same = refl; grown = g }

  pub writer_encoding-Over :
      (w : Writer t)
      → IsSender t w
      → w.output.left ≡ 0
      → w.encoder.state ≡ control_stop
      → Ensures
          (λ x. Encoding w x × ((x.0 ≡ endofdata) ⊎ (x.0 ≡ error)))
          (writer_encoding t pb al w)
  unfolding writer_encoding
  writer_encoding-Over w v z s =
      Ensures->>= (λ x. Grown t pb w.encoder w.encoder.dnstap (unsent w.output) x × Over t pb al x)
        _ (encoding t pb al w.encoder w.output) _
        (Ensures-Allows (Grown t pb w.encoder w.encoder.dnstap (unsent w.output)) (Over t pb al) _
          (encoding_lem t pb al tl pl laws w.encoder w.output v.linked v.output v.present
            (omega arith))
          (encoding-Over t pb al w.encoder w.output s))
        λ x g. (record { same = refl; grown = g.0 }, g.1)

  pub Encoding-IsSender :
      (w : Writer t) (x : Reply t) → IsSender t w → Encoding w x → IsSender t x.1
  Encoding-IsSender w x v g = record {
    output = g.grown.valid;
    present = g.grown.present;
    linked = subst IsLinked (sym g.grown.same_dnstap) v.linked;
  }

  pub Encoding-IsOneWay :
      (w : Writer t) (x : Reply t) → IsOneWay t w → Encoding w x → IsOneWay t x.1
  Encoding-IsOneWay w x v g = record {
    output = g.grown.valid;
    present = g.grown.present;
    linked = subst IsLinked (sym g.grown.same_dnstap) v.linked;
    one_way = ap (λ y. y.bidirectional) g.same ∙ v.one_way;
  }

  pub not_error : (r : Result) → r ≢ error → is_error r ≡ false
  not_error error h = absurd (h refl)
  not_error _ h = refl

  -- How many bytes one call of the encoder has made.
  pub made :
      (w : Writer t) (x : Reply t)
      → Encoding w x
      → (out : Bytes) × (unsent x.1.output ≡ unsent w.output ++ out)
        × Says t pb x.0 w.encoder x.1.encoder out
  made w x g =
      let (out, q, n) = g.grown.queue in
      (
        out,
        q,
        elim (Bool-cases (reports x.0)) [
          | inl e ↦ inr (g.grown.emitted e, n ∙ rw e refl)
          | inr e ↦
              inl (empty out (n ∙ rw e refl), inr (silent x.0 g.grown.own_result g.grown.settled e))
        ],
      )
    where
      silent : (r : Result) → is_foreign r ≡ false → r ≢ need_more → reports r ≡ false → r ≡ error
      silent error f s h = refl
      silent need_more f s h = absurd (s refl)
      silent _ f s h = absurd (ground arith)

      empty : (out : Bytes) → length out ≡ 0 → out ≡ []
      empty [] h = refl
      empty (b ∷ out) h = absurd (omega arith)

  -- The encoder's bytes are behind those that were pending.
  pub gave :
      (g : Given) (w : Writer t) (x : Reply t) (y : PopReply t)
      → Encoding w x
      → (x.0 ≡ error → y.0 ≡ error)
      → Gave t (unsent x.1.output) g.len x.1.encoder y
      → Popped t pb w g.len y
  gave g w x y e er h =
      let (out, q, n) = made w x e in
      record {
        valid = h.valid;
        handed = (
          out,
          subst (λ u. Handed t u g.len y.1) q h.handed,
          rw h.same_encoder (Says-mono t pb x.0 y.0 _ _ out er n),
        );
      }

  pub pop_encoding_lem :
      (g : Given) (c : Call t)
      → IsCall t pb al g c
      → c.writer.popped ≡ 0
      → c.writer.state ≡ WriterState.encoding
      → c.writer.output.left ≡ 0
      → Ensures (Popped t pb c.writer g.len) (pop_encoding t pb al g c)
  unfolding pop_encoding
  pop_encoding_lem g c v z s l =
      Ensures->>= (Encoding c.writer) (Popped t pb c.writer g.len)
        (writer_encoding t pb al c.writer) _
        (writer_encoding_lem c.writer (of_IsOneWay t v.basic) l)
        λ x e.
          let base : IsOneWay t x.1 = Encoding-IsOneWay c.writer x v.basic e in
          elim (Bool-cases (not (is_error x.0) && not (x.1.output.left == 0))) [
            | inl f ↦ rw f (
                Ensures-mono (Gave t (unsent x.1.output) g.len x.1.encoder)
                  (Popped t pb c.writer g.len) _
                  (pop_writing_lem t pb al g x.0
                    (record c { writer = record (x.1) { state = WriterState.writing } })
                    (record { basic = ground (arith, base); room = v.room }) refl)
                  λ y h. gave g c.writer x y e (λ q. absurd (ground arith)) h)
            | inr f ↦ rw f (
                gave g c.writer x (x.0, record c { writer = x.1 }) e (λ q. q)
                  (record {
                    valid = λ n.
                        let ne : is_error x.0 ≡ false = not_error x.0 n in
                        let st : x.1.state ≡ WriterState.encoding = ap (λ y. y.state) e.same ∙ s in
                        record {
                          output = base.output;
                          present = base.present;
                          linked = base.linked;
                          one_way = base.one_way;
                          sending = rw st refl;
                          quiet = λ i. ground arith;
                          stopped = λ h. absurd (ground arith);
                        };
                    handed =
                        nothing-Handed t (unsent x.1.output) g.len (record c { writer = x.1 })
                          (ap (λ y. y.popped) e.same ∙ z) refl;
                    same_encoder = refl;
                  }))
          ]

  pub pop_encoding_stop_lem :
      (g : Given) (c : Call t)
      → IsCall t pb al g c
      → c.writer.popped ≡ 0
      → c.writer.encoder.state ≡ control_stop
      → c.writer.output.left ≡ 0
      → Ensures (Popped t pb c.writer g.len) (pop_encoding_stop t pb al g c)
  unfolding pop_encoding_stop
  pop_encoding_stop_lem g c v z s l =
      Ensures->>= (λ x. Encoding c.writer x × ((x.0 ≡ endofdata) ⊎ (x.0 ≡ error)))
        (Popped t pb c.writer g.len) (writer_encoding t pb al c.writer) _
        (writer_encoding-Over c.writer (of_IsOneWay t v.basic) l s)
        λ x e.
          let base : IsOneWay t x.1 = Encoding-IsOneWay c.writer x v.basic e.0 in
          let zero : x.1.popped ≡ 0 = ap (λ y. y.popped) e.0.same ∙ z in
          elim e.1 [
            | inl f ↦ rw f (
                Ensures-mono (Gave t (unsent x.1.output) g.len x.1.encoder)
                  (Popped t pb c.writer g.len) _
                  (pop_writing_stop_lem t pb al g
                    (record c { writer = record (x.1) { state = WriterState.writing_stop } })
                    (record { basic = ground (arith, base); room = v.room }) zero refl)
                  λ y h. gave g c.writer x y e.0 (λ q. cc (f, q)) h)
            | inr f ↦ rw f (
                gave g c.writer x (error, record c { writer = x.1 }) e.0 (λ q. refl)
                  (record {
                    valid = λ n. absurd (n refl);
                    handed =
                        nothing-Handed t (unsent x.1.output) g.len (record c { writer = x.1 }) zero
                          refl;
                    same_encoder = refl;
                  }))
          ]
