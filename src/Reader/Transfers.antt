-- ===== src/Reader/Transfers.antt =====
-- One transfer between a descriptor and a buffer of the reader, in `dnswire_reader_read` of
-- src/reader.c.
use mathlib.Core.List.{append-nil}
use dnswire.Prelude.{
  ℕ, ◌-◌, ◌<◌, ◌≡◌, ◌≢◌, refl, sym, ◌∙◌, [], Bool, true, false, inl, inr, Option, none, some,
  length, drop, take, ◌++◌, ◌==◌, Bool-cases, Option-cases, if◌then◌else◌, arith, take-take,
}
use dnswire.Exec.{Bytes, contents, Ensures}
use dnswire.Result.{Result, error, again, have_dnstap}
use dnswire.Alloc.{Allocator}
use dnswire.Io.{Io, IsIo}
use dnswire.Buffer.{Buffer, free_space, drain}
use dnswire.Buffer.Valid.{IsInput, IsPresent, unread, unsent}
use dnswire.Buffer.Fill.{CopiedIn}
use dnswire.Buffer.Drain.{Drained, drain_lem, head_lem, length-unsent}
use dnswire.Tinyframe.{Tinyframe}
use dnswire.Dnstap.{Protobuf}
use dnswire.Reader.{Reader, ReaderState, reading_control, decoding_control, reading, Reply}
use dnswire.Reader.Read.{write_fd}
use dnswire.Reader.Valid.{decodes, replies, writes, IsOpen, IsReader, none_dropped, Stepped}

-- The states that read from the descriptor.
abbrev pub reads : ReaderState → Bool
reads reading_control = true
reads reading = true
reads _ = false

pub free_space_lem : (b : Buffer) → IsInput b → free_space b ≡ b.size - b.at - b.left
unfolding free_space
free_space_lem b v = ground arith

module _ (t : Tinyframe) where
  -- What a call of `read` takes from the descriptor.
  abbrev pub received : Io → Reader t → Bytes
  received io r = if reads r.state then contents (io.read (free_space r.input)) else []

  -- What a write to the descriptor leaves: an error, with the reader as it was, or a shorter reply;
  -- the state and the result show whether there is a rest.
  pub record WrittenOut (next : ReaderState) (last : Result) (r : Reader t) (o : Option ℕ)
      (x : Reply t) : Type 0 where
    pub valid : x.0 ≢ error → IsReader t x.1
    pub same_input : x.1.input ≡ r.input
    pub same_pushed : x.1.pushed ≡ r.pushed
    pub rest :
        x.0 ≢ error → unsent x.1.output ≡ drop (elim o [ none ↦ 0 | some n ↦ n ]) (unsent r.output)
    pub finished : x.0 ≢ error → x.1.output.left ≡ 0 → (x.0 ≡ last) × (x.1.state ≡ next)
    pub unfinished : x.0 ≢ error → 0 < x.1.output.left → (x.0 ≡ again) × (x.1.state ≡ r.state)

  write_broken :
      (next : ReaderState) (last : Result) (r : Reader t) (o : Option ℕ)
      → WrittenOut next last r o (error, r)
  write_broken next last r o = record {
    valid = λ h. absurd (h refl);
    same_input = refl;
    same_pushed = refl;
    rest = λ h. absurd (h refl);
    finished = λ h. absurd (h refl);
    unfinished = λ h. absurd (h refl);
  }

  -- For a reader with a well-formed reply buffer in a state that writes a reply, and a descriptor
  -- that takes no more than it is given, `write_fd` returns.
  pub write_fd_lem :
      (pb : Protobuf) (al : Allocator) (io : Io) (next : ReaderState) (last : Result) (r : Reader t)
      → IsIo io
      → IsOpen t r
      → IsPresent r.output.buf
      → r.is_bidirectional ≡ true
      → decodes r.state ≡ false
      → writes r.state ≡ true
      → decodes next ≡ false
      → replies next ≡ false
      → Ensures
          (WrittenOut next last r (io.write (unsent r.output)))
          (write_fd t pb al io next last r)
  unfolding write_fd
  write_fd_lem pb al io next last r il v i bi d w dn rn =
      let lu : length (unsent r.output) ≡ r.output.left = length-unsent r.output v.output i in
      rw (head_lem r.output r.output.left v.output i (omega arith), whole)
        (elim (Option-cases (io.write (unsent r.output))) [
          | inl e ↦ rw e (write_broken next last r none)
          | inr (n, e) ↦ elim (Bool-cases (n == 0)) [
            | inl z ↦ rw (e, z) (write_broken next last r (some n))
            | inr z ↦
                let g : Drained r.output n (drain r.output n) =
                  drain_lem r.output n v.output i
                    (omega (arith, il.write_fits (unsent r.output) e)) in
                rw (e, z)
                  (record {
                    valid = λ h. ground (arith, g);
                    same_input = ground arith;
                    same_pushed = ground arith;
                    rest = λ h. ground (arith, g);
                    finished = λ h k. ground (arith, g);
                    unfinished = λ h k. ground (arith, g);
                  })
          ]
        ])
    where
      whole : take r.output.left (unsent r.output) ≡ unsent r.output
      whole =
          take-take r.output.left r.output.left
            (drop (r.output.at - r.output.left) (contents r.output.buf)) (omega arith)

  pub stepped :
      (pb : Protobuf) (al : Allocator) (next : ReaderState) (last : Result) (r q : Reader t)
      (o : Option ℕ) (x : Reply t)
      → q.input ≡ r.input
      → q.pushed ≡ r.pushed
      → last ≢ have_dnstap
      → decodes next ≡ false
      → decodes q.state ≡ false
      → WrittenOut next last q o x
      → Stepped t (unread r.input ++ []) r.pushed x
  stepped pb al next last r q o x e z n dn d w = record {
    valid = w.valid;
    same_pushed = w.same_pushed ∙ z;
    queue = (
      0,
      rw (w.same_input, e) (sym (append-nil (unread r.input))),
      none_dropped t x not_message idle,
    );
  }
    where
      not_message : x.0 ≢ have_dnstap
      not_message h = elim (Bool-cases (x.1.output.left == 0)) [
        | inl c ↦ n (sym (w.finished (λ p. cc) (ground arith)).0 ∙ h)
        | inr c ↦ cc (h, (w.unfinished (λ p. cc) (ground arith)).0)
      ]

      idle : x.0 ≡ again → decodes x.1.state ≡ false
      idle h = elim (Bool-cases (x.1.output.left == 0)) [
        | inl c ↦ rw ((w.finished (λ p. cc) (ground arith)).1) dn
        | inr c ↦ rw ((w.unfinished (λ p. cc) (ground arith)).1) d
      ]

  pub ended :
      (r : Reader t) (q : Reader t)
      → q.input ≡ r.input
      → q.pushed ≡ r.pushed
      → Stepped t (unread r.input ++ []) r.pushed (error, q)
  ended r q e z = record {
    valid = λ h. absurd (h refl);
    same_pushed = z;
    queue = (
      0,
      rw e (sym (append-nil (unread r.input))),
      none_dropped t (error, q) (λ h. cc) (λ h. cc),
    );
  }

  -- What is read makes a reader that can decode.
  pub loaded :
      (r : Reader t) (s : ReaderState) (bs : Bytes) (b : Buffer)
      → IsReader t r
      → writes r.state ≡ false
      → decodes s ≡ true
      → 0 < length bs
      → CopiedIn r.input (length bs) bs b
      → IsReader t (record r { input = b; state = s })
  loaded r decoding_control bs b v w d h g = ground arith
  loaded r _ bs b v w d h g = ground arith
