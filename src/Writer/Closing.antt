-- ===== src/Writer/Closing.antt =====
-- The cases of `dnswire_writer_write` of src/writer.c after `dnswire_writer_stop`.
use dnswire.Prelude.{ℕ, ◌<◌, ◌≡◌, ◌≢◌, ◌⊎◌, refl, inl, inr, arith}
use dnswire.Exec.{Exec, Ensures}
use dnswire.Exec.Rules.{Ensures->>=, Ensures-mono}
use dnswire.Result.{ok, error, again, endofdata}
use dnswire.Alloc.{Allocator, IsAllocator}
use dnswire.Io.{Io, IsIo}
use dnswire.Buffer.{drain}
use dnswire.Tinyframe.{Tinyframe, IsTinyframe}
use dnswire.Dnstap.{Protobuf, IsProtobuf}
use dnswire.Encoder.{control_stop}
use dnswire.Writer.{
  Writer, WriterState, stopping, encoding_stop, writing_stop, reading_finish, Reply,
  writer_encoding,
}
use dnswire.Writer.Write.{write_writing_stop, write_encoding_stop, write_stopping}
use dnswire.Writer.Duplex.{IsPeer}
use dnswire.Writer.Encoding.{Encoding, writer_encoding-Over}
use dnswire.Writer.Sending.{write_rest_lem}
use dnswire.Writer.Outcome.{IsPeer-IsSender, Encoding-IsPeer}

module _ (t : Tinyframe) where
  -- The result is not `dnswire_ok`, and where it asks for another call, the writer has `P`.
  abbrev pub Closed : (Writer t → Type 0) → Reply t → Type 0
  Closed P x = (x.0 ≢ ok) × (x.0 ≡ again → P x.1)

  Closed-mono :
      (P Q : Writer t → Type 0) (m : Exec (Reply t))
      → ((v : Writer t) → P v → Q v)
      → Ensures (Closed P) m
      → Ensures (Closed Q) m
  Closed-mono P Q m f h = Ensures-mono (Closed P) (Closed Q) m h λ x c. (c.0, λ a. f x.1 (c.1 a))

  -- Fewer bytes are pending in the same state.
  abbrev pub Less : WriterState → ℕ → Writer t → Type 0
  Less s n v = (v.state ≡ s) × (v.output.left < n)

  -- A reply is awaited, or less of the STOP is pending.
  abbrev pub Waits : ℕ → Writer t → Type 0
  Waits n v = (v.state ≡ reading_finish) ⊎ Less writing_stop n v

  -- A reply is awaited, or the STOP is on its way out.
  abbrev pub Sent : Writer t → Type 0
  Sent v = (v.state ≡ reading_finish) ⊎ (v.state ≡ writing_stop)

  -- So, or fewer bytes are pending before the STOP is made.
  abbrev pub Leaves : ℕ → Writer t → Type 0
  Leaves n v = Sent v ⊎ Less stopping n v

module _ (t : Tinyframe) (pb : Protobuf) (al : Allocator) (tl : IsTinyframe t) (pl : IsProtobuf pb)
    (laws : IsAllocator al) (io : Io) (il : IsIo io) where
  pub writing_stop-Closed :
      (w : Writer t)
      → IsPeer t w
      → w.state ≡ writing_stop
      → Ensures (Closed t (Waits t w.output.left)) (write_writing_stop t pb al io w)
  unfolding write_writing_stop
  writing_stop-Closed w v s =
      write_rest_lem t pb al tl laws io il w v (Closed t (Waits t w.output.left)) _
        ((λ h. ground arith), λ h. ground arith) (λ z. ground arith) (λ n e d z. ground arith)
        (λ n e d z p. ((λ h. ground arith), λ h. inr (s, omega (arith, d.amount))))

  encoding_stop-Closed :
      (w : Writer t)
      → IsPeer t w
      → w.encoder.state ≡ control_stop
      → w.output.left ≡ 0
      → Ensures (Closed t (Sent t)) (write_encoding_stop t pb al io w)
  unfolding write_encoding_stop
  encoding_stop-Closed w v s z =
      Ensures->>= (λ x. Encoding t pb al tl pl laws w x × ((x.0 ≡ endofdata) ⊎ (x.0 ≡ error)))
        (Closed t (Sent t)) (writer_encoding t pb al w) _
        (writer_encoding-Over t pb al tl pl laws w (IsPeer-IsSender t pb al tl pl laws v) z s)
        λ x g.
          let p : IsPeer t x.1 = Encoding-IsPeer t pb al tl pl laws w x v g.0 in
          let y = record (x.1) { state = writing_stop } in
          elim g.1 [
            | inl f ↦ rw f (
                Closed-mono t (Waits t y.output.left) (Sent t) (write_writing_stop t pb al io y)
                  (λ q h. elim h [ inl r ↦ inl r | inr r ↦ inr r.0 ])
                  (writing_stop-Closed y (ground (arith, p)) refl))
            | inr f ↦ rw f ((λ h. ground arith), λ h. ground arith)
          ]

module _ (t : Tinyframe) (pb : Protobuf) (al : Allocator) (tl : IsTinyframe t) (pl : IsProtobuf pb)
    (laws : IsAllocator al) (io io' : Io) (il : IsIo io) (il' : IsIo io') where
  pub stopping-Closed :
      (w : Writer t)
      → IsPeer t w
      → w.encoder.state ≡ control_stop
      → w.state ≡ stopping
      → Ensures (Closed t (Leaves t w.output.left)) (write_stopping t pb al io io' w)
  unfolding write_stopping
  stopping-Closed w v c s =
      write_rest_lem t pb al tl laws io il w v (Closed t (Leaves t w.output.left)) _
        ((λ h. ground arith), λ h. ground arith)
        (λ z.
          Closed-mono t (Sent t) (Leaves t w.output.left) _ (λ q h. inl h)
            (encoding_stop-Closed t pb al tl pl laws io' il' (record w { state = encoding_stop })
              (ground (arith, v)) c z))
        (λ n e d z.
          Closed-mono t (Sent t) (Leaves t w.output.left) _ (λ q h. inl h)
            (encoding_stop-Closed t pb al tl pl laws io' il'
              (record w { output = drain w.output n; state = encoding_stop }) (ground (arith, v, d))
              c z))
        (λ n e d z p. ((λ h. ground arith), λ h. inr (s, omega (arith, d.amount))))
