-- ===== src/Writer/Starved.antt =====
-- `dnswire_writer_pop` of src/writer.c where it reads a reply.
use dnswire.Prelude.{
  ℕ, ◌-◌, ◌≤◌, ◌<◌, ◌≡◌, ◌⊎◌, refl, ap, Bool, true, false, not, ◌||◌, inl, inr, Option, none, some,
  length, take, ◌==◌, Bool-cases, arith, length-take,
}
use dnswire.Prelude.Size.{size_mod, add_size}
use dnswire.Exec.{fault, assertion, Bytes, Ensures, store}
use dnswire.Exec.Rules.{slice_lem, Ensures-ret, Ensures->>=}
use dnswire.Buffer.Fill.{fitting_lem}
use Prim.Native.Nat.{min}
use dnswire.Alloc.{Allocator}
use dnswire.Buffer.{Buffer, place, window}
use dnswire.Buffer.Valid.{IsInput, IsPresent, Holds-cases}
use dnswire.Tinyframe.{Tinyframe}
use dnswire.Dnstap.{Protobuf}
use dnswire.Decoder.{decode}
use dnswire.Encoder.Loop.Ends.{is_set_of_IsPresent}
use dnswire.Writer.{Writer, WriterState}
use dnswire.Writer.Decode.{decode_input, decode_accept, decode_finish}
use dnswire.Writer.Pop.{Call, Given, take_in, pop_reading_accept, pop_reading_finish, pop_in, pop}

present-cases : (o : Option Bytes) → IsPresent o → (p : Bytes) × (o ≡ some p)
present-cases none i = absurd i
present-cases (some p) i = (p, refl)

or_true : (b : Bool) → (b || true) ≡ true
or_true true = refl
or_true false = refl

module _ (t : Tinyframe) where
  -- The buffer for replies is at its start, and counts no byte.
  pub record IsBare (w : Writer t) : Type 0 where
    pub present : IsPresent w.input.buf
    pub none_left : w.input.left ≡ 0
    pub at_start : w.input.at ≡ 0

  place_lem :
      (b : Buffer) (s : Bytes)
      → IsInput b
      → b.left ≡ 0
      → length s ≤ b.size
      → Ensures (λ c. IsPresent c.buf × (c.left ≡ 0) × (c.at ≡ 0)) (place b s)
  unfolding place store add_size
  place_lem b s v z h =
      let (p, eb, lp) = Holds-cases b.buf b.size v.sized.storage v.present in
      let a : b.at ≡ 0 = v.rewound z in rw eb (ground (arith, a, z, lp, h))

  take_in_lem :
      (g : Given) (c : Call t) (p : Bytes)
      → IsInput c.writer.input
      → c.writer.input.left ≡ 0
      → g.in_data ≡ some p
      → g.in_len_orig ≤ length p
      → g.in_len_orig < size_mod
      → Ensures (λ d. IsBare d.writer) (take_in t g c)
  unfolding take_in
  take_in_lem g c p v z e h k =
      let n = min (c.writer.input.size - c.writer.input.at - c.writer.input.left) g.in_len_orig in
      rw (fitting_lem c.writer.input g.in_len_orig v k) (elim (Bool-cases (n == 0)) [
        | inl f ↦ rw f (record { present = v.present; none_left = z; at_start = v.rewound z })
        | inr f ↦
            rw (f, e, slice_lem p 0 n (omega arith))
              (Ensures->>= (λ b. IsPresent b.buf × (b.left ≡ 0) × (b.at ≡ 0)) (λ d. IsBare d.writer)
                (place c.writer.input (take n p)) _
                (place_lem c.writer.input (take n p) v z (omega (arith, length-take n p)))
                λ b w. record { present = w.0; none_left = w.1; at_start = w.2 })
      ])

module _ (t : Tinyframe) (pb : Protobuf) (al : Allocator) where
  decode_input-IsBare : (w : Writer t) → IsBare t w → decode_input t pb al w ≡ fault assertion
  unfolding decode_input window decode
  decode_input-IsBare w v =
      let (p, e) = present-cases w.input.buf v.present in
      rw (e, v.at_start, v.none_left, slice_lem p 0 0 (omega arith)) refl

  -- For a writer that waits for the ACCEPT or the FINISH with an empty buffer for replies, and a
  -- reply of 0 < `*in_len` < 2^64 bytes at `in_data`, `dnswire_writer_pop` fails an assertion: the
  -- bytes are counted in `left`, and the decoder is called with `read_left`, which is still 0.
  pub pop-fault :
      (w : Writer t) (data_out : Bytes) (len : ℕ) (p : Bytes) (n : ℕ)
      → (w.state ≡ WriterState.reading_accept) ⊎ (w.state ≡ WriterState.reading_finish)
      → IsPresent w.output.buf
      → IsInput w.input
      → w.input.left ≡ 0
      → 0 < len
      → 0 < n
      → n ≤ length p
      → n < size_mod
      → pop t pb al w data_out len (some p) (some n) ≡ fault assertion
  unfolding pop pop_in pop_reading_accept pop_reading_finish decode_accept decode_finish
  pop-fault w data_out len p n s i v z l h k m =
      let positive : (len == 0) ≡ false = ground arith in
      let some_given : (n == 0) ≡ false = ground arith in
      let given : (not w.bidirectional || true) ≡ true = or_true (not w.bidirectional) in
      let g : Given = record { len = len; in_data = some p; in_len_orig = n } in
      let c : Call t = record {
        writer = record w { popped = 0 };
        data_out = data_out;
        in_len = some 0;
      } in
      let (d, e, b) =
        Ensures-ret (λ d. IsBare t d.writer) (take_in t g c) (take_in_lem t g c p v z refl k m) in
      elim s [
        | inl a ↦
            rw
              (
                positive,
                is_set_of_IsPresent w.output.buf i,
                given,
                ap (λ x. pop_in t pb al g x c) a,
                some_given,
                e,
                decode_input-IsBare (record (d.writer) { state = WriterState.decoding_accept })
                    (ground (arith, b)),
              )
              refl
        | inr a ↦
            rw
              (
                positive,
                is_set_of_IsPresent w.output.buf i,
                given,
                ap (λ x. pop_in t pb al g x c) a,
                some_given,
                e,
                decode_input-IsBare (record (d.writer) { state = WriterState.decoding_finish })
                    (ground (arith, b)),
              )
              refl
      ]
