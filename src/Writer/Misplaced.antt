-- ===== src/Writer/Misplaced.antt =====
-- `dnswire_writer_set_bufsize` of src/writer.c for a size at which it moves bytes.
use dnswire.Prelude.{
  ℕ, ◌+◌, ◌-◌, ◌%◌, ◌∙◌, ap, ◌≤◌, ◌<◌, ◌≡◌, refl, true, false, inl, inr, arith, ltb, leb, ◌==◌,
  length, Option-cases,
}
use dnswire.Prelude.Size.{size_mod, add_size_exact, sub_size}
use dnswire.Exec.{fault, out_of_bounds, Ensures, Allows, slice, store}
use dnswire.Exec.Rules.{Ensures->>=, Ensures-Allows, Allows->>=}
use dnswire.Alloc.{Allocator, IsAllocator}
use dnswire.Io.{Io}
use dnswire.Buffer.{Buffer, compact, resize, head, set_size}
use dnswire.Buffer.Valid.{IsInput, Holds-cases}
use dnswire.Buffer.Resize.{Resized, set_size_lem}
use dnswire.Encoder.Loop.Ends.{is_set_of_IsPresent}
use dnswire.Tinyframe.{Tinyframe}
use dnswire.Dnstap.{Protobuf}
use dnswire.Writer.{Writer, WriterState, set_bufsize}
use dnswire.Writer.Write.{write_out, write_writing, write_in, write}
use dnswire.Writer.Duplex.{IsDuplex}

compact-at : (b : Buffer) → Allows (λ c. c.at ≡ 0) (compact b)
unfolding compact slice store
compact-at b = ground arith

set_size-at :
    (al : Allocator) (b : Buffer) (n : ℕ)
    → IsInput b
    → b.left ≤ n
    → n ≤ b.max
    → n < b.at + b.left
    → Allows (λ x. x.1.at ≡ 0) (set_size al b n)
unfolding set_size resize
set_size-at al b n v l m h =
    let e : ltb n b.left ≡ false = ground arith in
    let f : ltb b.max n ≡ false = ground arith in
    let g : ltb n (b.at + b.left) ≡ true = ground arith in
    rw
      (
        e,
        f,
        add_size_exact b.at b.left (omega (arith, v.inside, v.sized.bounded, v.sized.small)),
        g,
      )
      (Allows->>= (λ c. c.at ≡ 0) (λ x. x.1.at ≡ 0) (compact b) _ (compact-at b)
        λ c z. elim (Option-cases (al.realloc c.buf n)) [ inl o ↦ rw o z | inr (q, o) ↦ rw o z ])

-- The place of the pending bytes wraps, and they would end far behind the buffer.
behind : (a l s : ℕ) → a ≡ 0 → 0 < l → l ≤ s → s < size_mod → leb (sub_size a l + l) s ≡ false
unfolding sub_size
behind a l s z p h k =
    let e : (size_mod + a - l) % size_mod ≡ size_mod - l = omega arith in rw e (ground arith)

-- Pending bytes that would end at the start of the buffer.
head_fault : (b : Buffer) → IsInput b → b.at ≡ 0 → 0 < b.left → head b b.left ≡ fault out_of_bounds
unfolding head slice sub_size
head_fault b v z p =
    let (q, e, l) = Holds-cases b.buf b.size v.sized.storage v.present in
    rw (e, slice)
      (rw
        (behind b.at b.left (length q) z p (omega (arith, v.inside))
          (omega (arith, v.sized.bounded, v.sized.small)))
        refl)

module _ (t : Tinyframe) (pb : Protobuf) where
  write_fault :
      (al : Allocator) (io io' : Io) (w : Writer t)
      → IsInput w.output
      → w.state ≡ WriterState.writing
      → w.output.at ≡ 0
      → 0 < w.output.left
      → write t pb al io io' w ≡ fault out_of_bounds
  unfolding write write_in write_writing write_out
  write_fault al io io' w v s z p =
      rw (is_set_of_IsPresent w.output.buf v.present)
        (ap (λ x. write_in t pb al io io' x w) s ∙ rw (head_fault w.output v z p) refl)

  -- For a well-formed writer in the state `writing` with bytes pending, and a size that is below
  -- `at + left`, which is within the buffer, but large enough for the pending bytes and at most
  -- `max`, `dnswire_writer_set_bufsize` returns, and whether it succeeds or not, the next
  -- `dnswire_writer_write` reads out of the buffer's bounds.
  pub set_bufsize-fault :
      (al : Allocator) (w : Writer t) (n : ℕ)
      → IsAllocator al
      → IsDuplex t w
      → w.state ≡ WriterState.writing
      → 0 < w.output.left
      → w.output.left ≤ n
      → n < w.output.at + w.output.left
      → w.output.at + w.output.left ≤ w.output.size
      → n ≤ w.output.max
      → (al' : Allocator) (io io' : Io)
      → Ensures (λ x. write t pb al' io io' x.1 ≡ fault out_of_bounds) (set_bufsize t al w n)
  unfolding set_bufsize
  set_bufsize-fault al w n laws v s p l h k m al' io io' =
      let positive : (n == 0) ≡ false = ground arith in
      let i : IsInput w.output = record {
        sized = v.basic.output.sized;
        present = v.basic.present;
        inside = k;
        rewound = v.basic.output.rewound;
      } in
      rw (positive, is_set_of_IsPresent w.output.buf v.basic.present)
        (Ensures->>= (λ x. Resized w.output n x × (x.1.at ≡ 0)) _ (set_size al w.output n) _
          (Ensures-Allows (Resized w.output n) (λ x. x.1.at ≡ 0) (set_size al w.output n)
            (set_size_lem al w.output n laws i (omega arith)) (set_size-at al w.output n i l m h))
          λ x r.
            write_fault al' io io' (record w { output = x.1 }) r.0.valid s r.1
              (omega (arith, r.0.amount)))
