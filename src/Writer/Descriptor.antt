-- ===== src/Writer/Descriptor.antt =====
-- The steps of `dnswire_writer_write` of src/writer.c that write what is pending and that read a reply.
use mathlib.Core.List.{append-nil}
use dnswire.Prelude.{
  ℕ, ◌<◌, ◌≡◌, ◌≢◌, ◌⊎◌, refl, sym, subst, ap, ◌∙◌, [], true, inl, inr, some, length, drop,
  take_all, ◌++◌, ◌==◌, Bool-cases, Option-cases, arith,
}
use dnswire.Exec.{Exec, Bytes, Ensures}
use dnswire.Exec.Rules.{Ensures->>=, Ensures-mono}
use dnswire.Result.{error}
use dnswire.Alloc.{Allocator, IsAllocator}
use dnswire.Io.{Io, IsIo}
use dnswire.Buffer.{Buffer, free_space, copy_in, drain}
use dnswire.Buffer.Valid.{IsInput, unread, unsent}
use dnswire.Buffer.Fill.{CopiedIn, copy_in_lem}
use dnswire.Buffer.Drain.{Drained, drain_lem, head_lem, length-unsent}
use dnswire.Tinyframe.{Tinyframe, IsTinyframe}
use dnswire.Dnstap.{Protobuf}
use dnswire.Reader.Transfers.{free_space_lem}
use dnswire.Writer.{Writer, WriterState, Reply}
use dnswire.Writer.Decode.{decode_accept, decode_finish}
use dnswire.Writer.Write.{write_out, read_reply, write_reading_accept, write_reading_finish}
use dnswire.Writer.Duplex.{decodes, IsPeer, IsDuplex}
use dnswire.Writer.Replies.{Dropped, Answered, decode_accept-Answered, decode_finish-Answered}

-- How many of the pending bytes `all` the descriptor has taken.
abbrev pub Taken : Io → Bytes → ℕ → Type 0
Taken io all k = (k ≡ 0) ⊎ (io.write all ≡ some k)

-- What was read into the free space of `b`.
abbrev pub Received : Io → Buffer → Bytes → Type 0
Received io b bs = (bs ≡ []) ⊎ (io.read (free_space b) ≡ some bs)

module _ (t : Tinyframe) (io : Io) where
  -- After one write at most, of the pending bytes `all`, and one read at most: what is pending is
  -- `all` without the bytes that were taken, and what is unread is what was, followed by what came
  -- in, less a part from the front that was decoded.
  pub record Moved (w : Writer t) (all : Bytes) (x : Reply t) : Type 0 where
    pub valid : x.0 ≢ error → IsDuplex t x.1
    pub same_encoder : x.1.encoder ≡ w.encoder
    pub sent : (k : ℕ) × (unsent x.1.output ≡ drop k all) × Taken io all k
    pub read :
        (bs : Bytes) × (k : ℕ) × (unread x.1.input ≡ drop k (unread w.input ++ bs))
        × Received io w.input bs
        × Dropped t x k

  -- After one write at most, and no read.
  pub record Flushed (w : Writer t) (all : Bytes) (x : Reply t) : Type 0 where
    pub valid : x.0 ≢ error → IsDuplex t x.1
    pub same_encoder : x.1.encoder ≡ w.encoder
    pub same_input : x.1.input ≡ w.input
    pub sent : (k : ℕ) × (unsent x.1.output ≡ drop k all) × Taken io all k

  pub of_Flushed : (w : Writer t) (all : Bytes) (x : Reply t) → Flushed w all x → Moved w all x
  of_Flushed w all x f = record {
    valid = f.valid;
    same_encoder = f.same_encoder;
    sent = f.sent;
    read = ([], 0, rw (f.same_input) (sym (append-nil (unread w.input))), inl refl, inl refl);
  }

  -- After one read at most, and no write.
  pub record Heard (w : Writer t) (x : Reply t) : Type 0 where
    pub valid : x.0 ≢ error → IsDuplex t x.1
    pub same_encoder : x.1.encoder ≡ w.encoder
    pub same_output : x.1.output ≡ w.output
    pub read :
        (bs : Bytes) × (k : ℕ) × (unread x.1.input ≡ drop k (unread w.input ++ bs))
        × Received io w.input bs
        × Dropped t x k

  -- A read after a write.
  pub heard :
      (w y : Writer t) (all : Bytes) (k : ℕ) (x : Reply t)
      → y.input ≡ w.input
      → y.encoder ≡ w.encoder
      → unsent y.output ≡ drop k all
      → Taken io all k
      → Heard y x
      → Moved w all x
  heard w y all k x i e u n h = record {
    valid = h.valid;
    same_encoder = h.same_encoder ∙ e;
    sent = (k, ap unsent h.same_output ∙ u, n);
    read =
        subst
          (λ b.
            (bs : Bytes) × (k : ℕ) × (unread x.1.input ≡ drop k (unread b ++ bs))
            × Received io b bs
            × Dropped t x k)
          i h.read;
  }

module _ (t : Tinyframe) (pb : Protobuf) (al : Allocator) (io : Io) (il : IsIo io) where
  -- The rule for a write: the next step gets the writer without the bytes that were taken.
  pub write_out_lem :
      (Q : Reply t → Type 0) (next : Writer t → Exec (Reply t)) (w : Writer t)
      → IsPeer t w
      → Q (error, w)
      → ((n : ℕ)
          → io.write (unsent w.output) ≡ some n
          → Drained w.output n (drain w.output n)
          → 0 < n
          → Ensures Q (next (record w { output = drain w.output n })))
      → Ensures Q (write_out t pb al io next w)
  unfolding write_out
  write_out_lem Q next w v q k =
      let lu : length (unsent w.output) ≡ w.output.left =
        length-unsent w.output v.output v.present in
      rw
        (
          head_lem w.output w.output.left v.output v.present (omega arith),
          take_all w.output.left (unsent w.output) (omega arith),
        )
        (elim (Option-cases (io.write (unsent w.output))) [
          | inl e ↦ rw e q
          | inr (n, e) ↦ elim (Bool-cases (n == 0)) [
            | inl z ↦ rw (e, z) q
            | inr z ↦
                rw (e, z)
                  (k n e
                    (drain_lem w.output n v.output v.present
                      (omega (arith, il.write_fits (unsent w.output) e)))
                    (ground arith))
          ]
        ])

  -- The rule for a read: the next step gets the bytes that came in behind those that wait.
  read_reply_lem :
      (Q : Reply t → Type 0) (next : Writer t → Exec (Reply t)) (w : Writer t)
      → IsInput w.input
      → Q (error, w)
      → ((bs : Bytes) (b : Buffer)
          → io.read (free_space w.input) ≡ some bs
          → 0 < length bs
          → CopiedIn w.input (length bs) bs b
          → Ensures Q (next (record w { input = b })))
      → Ensures Q (read_reply t pb al io next w)
  unfolding read_reply
  read_reply_lem Q next w v q k = elim (Option-cases (io.read (free_space w.input))) [
    | inl e ↦ rw (e, Ensures) q
    | inr (bs, e) ↦ elim (Bool-cases (length bs == 0)) [
      | inl z ↦ rw (e, z, Ensures) q
      | inr z ↦
          rw (e, z, Ensures)
            (Ensures->>= (CopiedIn w.input (length bs) bs) Q (copy_in w.input (length bs) bs) _
              (copy_in_lem w.input (length bs) bs v (omega arith) (
                omega
                  (arith, il.read_fits (free_space w.input) e, free_space_lem w.input v, v.inside)))
              λ b g. k bs b e (ground arith) g)
    ]
  ]

module _ (t : Tinyframe) (pb : Protobuf) (al : Allocator) (tl : IsTinyframe t)
    (laws : IsAllocator al) (io : Io) (il : IsIo io) where
  -- With a reply in the buffer, the writer can decode.
  listening :
      (w : Writer t) (b : Buffer) (s : WriterState)
      → IsPeer t w
      → w.bidirectional ≡ true
      → w.output.left ≡ 0
      → IsInput b
      → 0 < b.left
      → decodes s ≡ true
      → IsDuplex t (record w { input = b; state = s })
  listening w b WriterState.decoding_accept v bi z c p d = ground arith
  listening w b _ v bi z c p d = ground arith

  -- A reply that has come in is decoded.
  answered :
      (w y : Writer t) (bs : Bytes) (x : Reply t)
      → y.output ≡ w.output
      → y.encoder ≡ w.encoder
      → io.read (free_space w.input) ≡ some bs
      → CopiedIn w.input (length bs) bs y.input
      → Answered t y (unread y.input) x
      → Heard t io w x
  answered w y bs x o e r c a = record {
    valid = a.valid;
    same_encoder = a.same_encoder ∙ e;
    same_output = a.same_output ∙ o;
    read = (
      bs,
      a.queue.0,
      a.queue.1
          ∙ ap (λ y. drop a.queue.0 y)
              (c.queue ∙ ap (λ y. unread w.input ++ y) (take_all (length bs) bs (omega arith))),
      inr r,
      a.queue.2,
    );
  }

  deaf : (w : Writer t) → Heard t io w (error, w)
  deaf w = record {
    valid = λ h. absurd (h refl);
    same_encoder = refl;
    same_output = refl;
    read = ([], 0, sym (append-nil (unread w.input)), inl refl, inl refl);
  }

  pub write_reading_accept_lem :
      (w : Writer t)
      → IsPeer t w
      → w.bidirectional ≡ true
      → w.output.left ≡ 0
      → Ensures (Heard t io w) (write_reading_accept t pb al io w)
  unfolding write_reading_accept
  write_reading_accept_lem w v bi z =
      read_reply_lem t pb al io il (Heard t io w) _ w (v.input bi) (deaf w) λ bs b e p c.
        let y = record w { input = b; state = WriterState.decoding_accept } in
        Ensures-mono (Answered t y (unread b)) (Heard t io w) (decode_accept t pb al y)
          (decode_accept-Answered t pb al tl laws y
            (listening w b WriterState.decoding_accept v bi z c.valid (omega (arith, c.amount))
              refl)
            refl)
          λ x a. answered w y bs x refl refl e c a

  pub write_reading_finish_lem :
      (w : Writer t)
      → IsPeer t w
      → w.bidirectional ≡ true
      → w.output.left ≡ 0
      → Ensures (Heard t io w) (write_reading_finish t pb al io w)
  unfolding write_reading_finish
  write_reading_finish_lem w v bi z =
      read_reply_lem t pb al io il (Heard t io w) _ w (v.input bi) (deaf w) λ bs b e p c.
        let y = record w { input = b; state = WriterState.decoding_finish } in
        Ensures-mono (Answered t y (unread b)) (Heard t io w) (decode_finish t pb al y)
          (decode_finish-Answered t pb al tl laws y
            (listening w b WriterState.decoding_finish v bi z c.valid (omega (arith, c.amount))
              refl)
            refl)
          λ x a. answered w y bs x refl refl e c a
