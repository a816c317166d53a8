-- ===== src/Writer/Sessions.antt =====
-- A whole life of a writer of src/writer.c: `dnswire_writer_init`, `dnswire_writer_set_bidirectional`, and
-- then `set_dnstap`, `stop`, `write` and the setters of the limits in any order.
use dnswire.Prelude.{
  ℕ, ◌+◌, ◌≤◌, ◌<◌, ◌≡◌, ◌≢◌, refl, subst, Bool, true, false, inl, inr, Option, none, some,
  Option-cases, arith,
}
use dnswire.Exec.{ret, Bytes, Ensures}
use dnswire.Result.{ok, error}
use dnswire.Alloc.{Allocator, IsAllocator}
use dnswire.Io.{Io, IsIo}
use dnswire.Buffer.{defaults}
use dnswire.Tinyframe.{Tinyframe, IsTinyframe}
use dnswire.Dnstap.{Dnstap, Protobuf, IsProtobuf}
use dnswire.Encoder.{Encoder, EncoderState, stop_in}
use dnswire.Encoder
use dnswire.Encoder.Contract.{IsLinked}
use dnswire.Writer.{
  Writer, Reply, init, begin_both, set_bidirectional, set_dnstap, on_stop, stop, writer_defaults,
}
use dnswire.Writer.Write.{write}
use dnswire.Prelude.Size.{size_mod}
use dnswire.Buffer.Valid.{unsent}
use dnswire.Writer.{Reply, set_bufsize, set_bufinc, set_bufmax}
use dnswire.Writer.Limits.{set_bufsize-IsDuplex, set_bufinc-IsDuplex, set_bufmax-IsDuplex}
use dnswire.Writer.Duplex.{IsDuplex, of_IsWriter}
use dnswire.Writer.Setup.{writer_init_lem}
use dnswire.Writer.Outcome.{Wrote}
use dnswire.Writer.Total.{write_lem}

module _ (t : Tinyframe) where
  begin_both-IsDuplex :
      (al : Allocator) (w : Writer t) (o : Option Bytes)
      → IsAllocator al
      → o ≡ none
      → w.input ≡ defaults
      → w.output.left ≡ 0
      → IsDuplex t w
      → IsDuplex t (begin_both t al w o).1
  unfolding begin_both defaults
  begin_both-IsDuplex al w (some p) laws n i z v = cc
  begin_both-IsDuplex al w none laws n i z v = elim (Option-cases (al.malloc w.input.size)) [
    | inl e ↦ rw (e, begin_both) v
    | inr (p, e) ↦
        let l = laws.malloc_length w.input.size e in rw (e, begin_both) (ground (arith, v, l, i, z))
  ]

  -- With an allocator that gives blocks of the size it is asked for,
  -- `dnswire_writer_set_bidirectional` leaves a well-formed writer well formed, whether it
  -- succeeds or not, if nothing is pending and the buffer for replies is as after init.
  pub set_bidirectional_lem :
      (al : Allocator) (w : Writer t) (b : Bool)
      → IsAllocator al
      → w.input ≡ defaults
      → w.output.left ≡ 0
      → IsDuplex t w
      → IsDuplex t (set_bidirectional t al w b).1
  unfolding set_bidirectional defaults
  set_bidirectional_lem al w true laws i z v =
      begin_both-IsDuplex al w w.input.buf laws (rw i refl) i z v
  set_bidirectional_lem al w false laws i z v = ground (arith, v, i, z)

  stop_in-IsDuplex :
      (w : Writer t) (s : EncoderState)
      → IsDuplex t w
      → IsDuplex t (on_stop t w (stop_in t s w.encoder)).1
  unfolding stop_in on_stop
  stop_in-IsDuplex w EncoderState.frames v = ground (arith, v)
  stop_in-IsDuplex w _ v = v

  pub stop-IsDuplex : (w : Writer t) → IsDuplex t w → IsDuplex t (stop t w).1
  unfolding stop Encoder.stop
  stop-IsDuplex w v = stop_in-IsDuplex w w.encoder.state v

  set_dnstap-IsDuplex :
      (w : Writer t) (d : Option Dnstap) → IsLinked d → IsDuplex t w → IsDuplex t (set_dnstap t w d)
  unfolding set_dnstap
  set_dnstap-IsDuplex w d l v = ground (arith, v)

  init-input : (pb : Protobuf) (al : Allocator) → (init t pb al).1.input ≡ defaults
  unfolding init writer_defaults
  init-input pb al = elim (Option-cases (al.malloc (writer_defaults t pb).output.size)) [
    | inl e ↦ rw (e, init) refl
    | inr (p, e) ↦ rw (e, init) refl
  ]

module _ (t : Tinyframe) (pb : Protobuf) where
  -- The writers that calls lead to, each with its own answers of the heap and the descriptor; the
  -- direction is chosen right after `init`, and after `dnswire_error` from `write` the writer is not
  -- used again.
  pub data Reached : Writer t → Type 0 where
    started : (al : Allocator) → IsAllocator al → (init t pb al).0 ≡ ok → Reached (init t pb al).1
    chosen :
        (al al' : Allocator) (b : Bool)
        → IsAllocator al
        → IsAllocator al'
        → (init t pb al).0 ≡ ok
        → Reached (set_bidirectional t al' (init t pb al).1 b).1
    given : (d : Option Dnstap) {w : Writer t} → IsLinked d → Reached w → Reached (set_dnstap t w d)
    stopped : {w : Writer t} → Reached w → Reached (stop t w).1
    resized :
        (al : Allocator) (n : ℕ) {w : Writer t} {x : Reply t}
        → IsAllocator al
        → Reached w
        → 0 < n
        → w.output.at + w.output.left ≤ n
        → set_bufsize t al w n ≡ ret x
        → Reached x.1
    increased :
        (n : ℕ) {w : Writer t} {x : Reply t}
        → Reached w
        → 0 < n
        → w.output.max + n < size_mod
        → set_bufinc t w n ≡ ret x
        → Reached x.1
    limited :
        (n : ℕ) {w : Writer t} {x : Reply t}
        → Reached w
        → 0 < n
        → n + w.output.inc < size_mod
        → set_bufmax t w n ≡ ret x
        → Reached x.1
    written :
        (al : Allocator) (io io' : Io) {w : Writer t} {x : Reply t}
        → IsAllocator al
        → IsIo io
        → IsIo io'
        → Reached w
        → write t pb al io io' w ≡ ret x
        → x.0 ≢ error
        → Reached x.1

  started-IsDuplex :
      (al : Allocator)
      → IsAllocator al
      → (init t pb al).0 ≡ ok
      → IsDuplex t (init t pb al).1 × ((init t pb al).1.output.left ≡ 0)
  started-IsDuplex al laws h = elim (writer_init_lem t pb al laws) [
    | inl e ↦ cc
    | inr (a, v, z) ↦ (of_IsWriter t (init t pb al).1 v, z)
  ]

  -- For libraries with the properties in `IsTinyframe` and `IsProtobuf`, every writer that is
  -- reached from `dnswire_writer_init`, with or without `dnswire_writer_set_bidirectional` right
  -- after it, by calls of set_dnstap, stop, write, set_bufinc, set_bufmax and set_bufsize in any
  -- order, is well formed; the messages have no dangling pointers, the descriptors give and take
  -- no more than they are asked to, `max + inc` stays below 2^64, a new size is at least `at +
  -- left`, and after `dnswire_error` from init or write the writer is not used again.
  pub Reached-IsDuplex : IsTinyframe t → IsProtobuf pb → (w : Writer t) → Reached w → IsDuplex t w
  Reached-IsDuplex tl pl _ (started al laws h) = (started-IsDuplex al laws h).0
  Reached-IsDuplex tl pl _ (chosen al al' b laws laws' h) =
      let (v, z) = started-IsDuplex al laws h in
      set_bidirectional_lem t al' (init t pb al).1 b laws' (init-input t pb al) z v
  Reached-IsDuplex tl pl _ (given d {w} l q) =
      set_dnstap-IsDuplex t w d l (Reached-IsDuplex tl pl w q)
  Reached-IsDuplex tl pl _ (stopped {w} q) = stop-IsDuplex t w (Reached-IsDuplex tl pl w q)
  Reached-IsDuplex tl pl _ (resized al n {w} {x} laws q p g e) =
      (subst (Ensures (λ y. IsDuplex t y.1 × (unsent y.1.output ≡ unsent w.output))) e
        (set_bufsize-IsDuplex t al w n laws (Reached-IsDuplex tl pl w q) p g)).0
  Reached-IsDuplex tl pl _ (increased n {w} {x} q p h e) =
      (subst (Ensures (λ y. IsDuplex t y.1 × (y.0 ≡ ok))) e
        (set_bufinc-IsDuplex t w n (Reached-IsDuplex tl pl w q) p h)).0
  Reached-IsDuplex tl pl _ (limited n {w} {x} q p h e) =
      (subst (Ensures (λ y. IsDuplex t y.1 × (y.0 ≡ ok → w.output.size ≤ n))) e
        (set_bufmax-IsDuplex t w n (Reached-IsDuplex tl pl w q) p h)).0
  Reached-IsDuplex tl pl _ (written al io io' {w} {x} laws il il' q e n) =
      (subst (Ensures (Wrote t pb io io' w)) e
          (write_lem t pb al tl pl laws io io' il il' w (Reached-IsDuplex tl pl w q))).valid
        n
