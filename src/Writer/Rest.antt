-- ===== src/Writer/Rest.antt =====
-- The cases of `dnswire_writer_pop` of src/writer.c that copy what is pending.
use Prim.Native.Nat.{min}
use dnswire.Prelude.{
  ℕ, ◌≤◌, ◌≡◌, ◌≢◌, refl, subst, true, false, inl, inr, length, ◌++◌, ◌==◌, Bool-cases, arith,
}
use dnswire.Exec.{Exec, Bytes, Ensures}
use dnswire.Result.{Result, error}
use dnswire.Alloc.{Allocator}
use dnswire.Buffer.{drain}
use dnswire.Buffer.Valid.{IsOutput, IsPresent, unsent}
use dnswire.Buffer.Drain.{Drained, drain_lem}
use dnswire.Tinyframe.{Tinyframe}
use dnswire.Dnstap.{Protobuf}
use dnswire.Encoder.{Encoder, control_stop}
use dnswire.Encoder.Contract.{IsLinked}
use dnswire.Encoder.Loop.Ends.{Says}
use dnswire.Writer.{Writer, WriterState}
use dnswire.Writer.Pop.{Call, Given, PopReply, pop_writing, pop_rest, after_stop, pop_writing_stop}
use dnswire.Writer.Valid.{sends, idle, stops, IsWriter}
use dnswire.Writer.Pending.{copied_out, Handed, pop_out_lem, copied_out-Handed}

module _ (t : Tinyframe) where
  -- What the encoder asks of the writer.
  pub record IsSender (w : Writer t) : Type 0 where
    pub output : IsOutput w.output
    pub present : IsPresent w.output.buf
    pub linked : IsLinked w.encoder.dnstap

  -- What holds of the writer in every state of a session of one direction.
  pub record IsOneWay (w : Writer t) : Type 0 where
    pub output : IsOutput w.output
    pub present : IsPresent w.output.buf
    pub linked : IsLinked w.encoder.dnstap
    pub one_way : w.bidirectional ≡ false

  pub of_IsOneWay : {w : Writer t} → IsOneWay w → IsSender w
  of_IsOneWay v = record { output = v.output; present = v.present; linked = v.linked }

  -- After the bytes `all` were pending, the encoder is left as it was.
  pub record Gave (all : Bytes) (len : ℕ) (e : Encoder t) (x : PopReply t) : Type 0 where
    pub valid : x.0 ≢ error → IsWriter t x.1.writer
    pub handed : Handed t all len x.1
    pub same_encoder : x.1.writer.encoder ≡ e

  -- What a call leaves: a well-formed writer unless the result is an error; and the bytes that were
  -- pending, followed by those of at most one call of the encoder, are in `data` up to `popped` and
  -- from there on pending.
  pub record Popped (pb : Protobuf) (w : Writer t) (len : ℕ) (x : PopReply t) : Type 0 where
    pub valid : x.0 ≢ error → IsWriter t x.1.writer
    pub handed :
        (out : Bytes) × Handed t (unsent w.output ++ out) len x.1
        × Says t pb x.0 w.encoder x.1.writer.encoder out

  -- Nothing is copied.
  pub nothing-Handed :
      (all : Bytes) (len : ℕ) (c : Call t)
      → c.writer.popped ≡ 0
      → unsent c.writer.output ≡ all
      → Handed t all len c
  nothing-Handed all len c z e = record { count = omega arith; bytes = rw z refl; rest = rw z e }

module _ (t : Tinyframe) (pb : Protobuf) (al : Allocator) (g : Given) where
  -- `c` has room for what it says, and its writer can be written from.
  pub record IsCall (c : Call t) : Type 0 where
    pub basic : IsOneWay t c.writer
    pub room : g.len ≤ length c.data_out

  pub pop_writing_lem :
      (res : Result) (c : Call t)
      → IsCall c
      → c.writer.state ≡ WriterState.writing
      → Ensures
          (Gave t (unsent c.writer.output) g.len c.writer.encoder)
          (pop_writing t pb al g res c)
  unfolding pop_writing
  pop_writing_lem res c v s =
      let n = min c.writer.output.left g.len in
      let d : Drained c.writer.output n (drain c.writer.output n) =
        drain_lem c.writer.output n v.basic.output v.basic.present (omega arith) in
      let h : Handed t (unsent c.writer.output) g.len (copied_out t n c) =
        copied_out-Handed t c n g.len v.basic.output v.basic.present (omega arith) (omega arith) in
      rw (pop_out_lem t g c v.basic.output v.basic.present v.room)
        (elim (Bool-cases ((drain c.writer.output n).left == 0)) [
          | inl e ↦ rw e (record {
            valid = λ u. ground (arith, d, v);
            handed = record { count = h.count; bytes = h.bytes; rest = h.rest };
            same_encoder = refl;
          })
          | inr e ↦
              rw e (record { valid = λ u. ground (arith, d, v); handed = h; same_encoder = refl })
        ])

  pub after_stop_lem :
      (all : Bytes) (c : Call t)
      → IsOneWay t c.writer
      → c.writer.output.left ≡ 0
      → Handed t all g.len c
      → Ensures (Gave t all g.len c.writer.encoder) (after_stop t pb al g c)
  unfolding after_stop
  after_stop_lem all c v z h = rw v.one_way (record {
    valid = λ u. ground (arith, v);
    handed = record { count = h.count; bytes = h.bytes; rest = h.rest };
    same_encoder = refl;
  })

  -- What is pending goes out first.
  pub pop_rest_lem :
      (next : Call t → Exec (PopReply t)) (c : Call t)
      → IsCall c
      → c.writer.popped ≡ 0
      → sends c.writer.state ≡ true
      → idle c.writer.state ≡ false
      → (stops c.writer.state ≡ true → c.writer.encoder.state ≡ control_stop)
      → ((d : Call t)
          → IsOneWay t d.writer
          → d.writer.output.left ≡ 0
          → d.writer.encoder ≡ c.writer.encoder
          → Handed t (unsent c.writer.output) g.len d
          → Ensures (Gave t (unsent c.writer.output) g.len c.writer.encoder) (next d))
      → Ensures (Gave t (unsent c.writer.output) g.len c.writer.encoder) (pop_rest t pb al g next c)
  unfolding pop_rest
  pop_rest_lem next c v z s i st k =
      let n = min c.writer.output.left g.len in
      let d : Drained c.writer.output n (drain c.writer.output n) =
        drain_lem c.writer.output n v.basic.output v.basic.present (omega arith) in
      let h : Handed t (unsent c.writer.output) g.len (copied_out t n c) =
        copied_out-Handed t c n g.len v.basic.output v.basic.present (omega arith) (omega arith) in
      elim (Bool-cases (c.writer.output.left == 0)) [
        | inl e ↦ rw e (
            k c v.basic (ground arith) refl
              (nothing-Handed t (unsent c.writer.output) g.len c z refl))
        | inr e ↦
            rw (e, pop_out_lem t g c v.basic.output v.basic.present v.room)
              (elim (Bool-cases ((drain c.writer.output n).left == 0)) [
                | inl f ↦ rw f (k (copied_out t n c) (ground (arith, d, v)) (ground arith) refl h)
                | inr f ↦
                    rw f (record {
                      valid = λ u. ground (arith, d, v);
                      handed = h;
                      same_encoder = refl;
                    })
              ])
      ]

  pub pop_writing_stop_lem :
      (c : Call t)
      → IsCall c
      → c.writer.popped ≡ 0
      → c.writer.state ≡ WriterState.writing_stop
      → Ensures
          (Gave t (unsent c.writer.output) g.len c.writer.encoder)
          (pop_writing_stop t pb al g c)
  unfolding pop_writing_stop
  pop_writing_stop_lem c v z s =
      pop_rest_lem (after_stop t pb al g) c v z (rw s refl) (rw s refl) (λ h. absurd (ground arith))
        λ d w l e h.
          subst (λ x. Ensures (Gave t (unsent c.writer.output) g.len x) (after_stop t pb al g d)) e
            (after_stop_lem (unsent c.writer.output) d w l h)
