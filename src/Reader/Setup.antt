-- ===== src/Reader/Setup.antt =====
-- `dnswire_reader_init`, `dnswire_reader_allow_bidirectional` and the setters of the buffer's limits
-- in src/reader.c.
use dnswire.Prelude.{
  ℕ, ◌+◌, ◌≤◌, ◌<◌, ◌≡◌, ◌⊎◌, refl, Bool, true, false, inl, inr, Option, none, some, Option-cases,
  ◌==◌, arith,
}
use dnswire.Exec.{Bytes, Ensures}
use dnswire.Exec.Rules.{Ensures->>=}
use dnswire.Prelude.Size.{size_mod}
use dnswire.Buffer.{set_size, set_inc, set_max}
use dnswire.Buffer.Resize.{Resized, set_size_lem}
use dnswire.Buffer.Valid.{unread}
use dnswire.Encoder.Loop.Ends.{is_set_of_IsPresent}
use dnswire.Result.{ok, error}
use dnswire.Alloc.{Allocator, IsAllocator}
use dnswire.Buffer.{Buffer, defaults}
use dnswire.Tinyframe.{Tinyframe}
use dnswire.Dnstap.{Protobuf}
use dnswire.Encoder.{encoder_initializer}
use dnswire.Reader.{
  Reader, reading_control, reader_defaults, init, allow, set_allow_bidirectional, set_bufsize,
  set_bufinc, set_bufmax, status,
}
use dnswire.Reader.Valid.{IsReader}

module _ (t : Tinyframe) (al : Allocator) (laws : IsAllocator al) where
  -- With an allocator that gives blocks of the size it is asked for, `dnswire_reader_init` either
  -- fails or makes a well-formed reader, in the state `reading_control` with nothing to read.
  pub init_lem :
      (pb : Protobuf)
      → ((init t pb al).0 ≡ error)
        ⊎ (((init t pb al).0 ≡ ok)
            × IsReader t (init t pb al).1
            × ((init t pb al).1.state ≡ reading_control)
            × ((init t pb al).1.input.left ≡ 0))
  unfolding init reader_defaults defaults encoder_initializer
  init_lem pb = elim (Option-cases (al.malloc (reader_defaults t pb).input.size)) [
    | inl e ↦ rw (e, init) (inl refl)
    | inr (p, e) ↦
        let n = laws.malloc_length (reader_defaults t pb).input.size e in
        rw (e, init) (inr (refl, ground (arith, n), refl, refl))
  ]

  allow_lem :
      (r : Reader t) (o : Option Bytes)
      → r.output.buf ≡ o
      → IsReader t r
      → IsReader t (allow t al r o).1
        × ((allow t al r o).1.input ≡ r.input)
        × ((allow t al r o).1.output.left ≡ r.output.left)
  unfolding allow
  allow_lem r (some p) e v = (ground (arith, v, e), refl, refl)
  allow_lem r none e v = elim (Option-cases (al.malloc r.output.size)) [
    | inl f ↦ rw (f, allow) (v, refl, refl)
    | inr (p, f) ↦
        let n = laws.malloc_length r.output.size f in
        rw (f, allow) (ground (arith, v, n), refl, refl)
  ]

  -- With an allocator that gives blocks of the size it is asked for,
  -- `dnswire_reader_allow_bidirectional` leaves a well-formed reader well formed, whether it
  -- succeeds or not, and changes no byte that is read or pending.
  pub set_allow_bidirectional_lem :
      (r : Reader t) (b : Bool)
      → IsReader t r
      → IsReader t (set_allow_bidirectional t al r b).1
        × ((set_allow_bidirectional t al r b).1.input ≡ r.input)
        × ((set_allow_bidirectional t al r b).1.output.left ≡ r.output.left)
  unfolding set_allow_bidirectional allow
  set_allow_bidirectional_lem r true v = allow_lem r r.output.buf refl v
  set_allow_bidirectional_lem r false v = (ground (arith, v), refl, refl)

  after_size :
      (r : Reader t) (n : ℕ) (x : Bool × Buffer)
      → IsReader t r
      → Resized r.input n x
      → IsReader t (record r { input = x.1 })
        × (unread x.1 ≡ unread r.input)
        × (status t x.0 ≡ ok → (x.1.size ≡ n) × (r.input.left ≤ n))
  after_size r n (true, b) v w =
      (ground (arith, v, w), w.queue, λ h. ((w.done refl).0, (w.done refl).1))
  after_size r n (false, b) v w = (ground (arith, v, w), w.queue, λ h. cc)

  -- For a well-formed reader, an allocator that keeps the bytes of a block that it moves, and a
  -- size above 0, `dnswire_reader_set_bufsize` returns and leaves a well-formed reader with the
  -- same unread bytes, whether it succeeds or not; if it succeeds, then the buffer has the new
  -- size, and the unread bytes fit in it.
  pub set_bufsize_lem :
      (r : Reader t) (n : ℕ)
      → IsReader t r
      → 0 < n
      → Ensures
          (λ x.
            IsReader t x.1
            × (unread x.1.input ≡ unread r.input)
            × (x.0 ≡ ok → (x.1.input.size ≡ n) × (r.input.left ≤ n)))
          (set_bufsize t al r n)
  unfolding set_bufsize
  set_bufsize_lem r n v p =
      let positive : (n == 0) ≡ false = ground arith in
      rw (positive, is_set_of_IsPresent r.input.buf v.basic.input.present)
        (Ensures->>= (Resized r.input n) _ (set_size al r.input n) _
          (set_size_lem al r.input n laws v.basic.input p) λ x w. after_size r n x v w)

module _ (t : Tinyframe) where
  -- An increment above 0 that keeps `max + inc` below 2^64.
  pub set_bufinc-IsReader :
      (r : Reader t) (n : ℕ)
      → IsReader t r
      → 0 < n
      → r.input.max + n < size_mod
      → Ensures (λ x. IsReader t x.1 × (x.0 ≡ ok)) (set_bufinc t r n)
  unfolding set_bufinc set_inc
  set_bufinc-IsReader r n v p h = ground (arith, v)

  -- A limit; one below the size is refused.
  pub set_bufmax-IsReader :
      (r : Reader t) (n : ℕ)
      → IsReader t r
      → 0 < n
      → n + r.input.inc < size_mod
      → Ensures (λ x. IsReader t x.1 × (x.0 ≡ ok → r.input.size ≤ n)) (set_bufmax t r n)
  unfolding set_bufmax set_max
  set_bufmax-IsReader r n v p h = ground (arith, v)
