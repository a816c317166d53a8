-- ===== src/Writer/Setup.antt =====
-- `dnswire_writer_init` of src/writer.c.
use dnswire.Prelude.{◌≡◌, ◌⊎◌, refl, inl, inr, Option-cases, arith}
use dnswire.Result.{ok, error}
use dnswire.Alloc.{Allocator, IsAllocator}
use dnswire.Buffer.{defaults}
use dnswire.Tinyframe.{Tinyframe}
use dnswire.Dnstap.{Protobuf}
use dnswire.Encoder.{encoder_initializer}
use dnswire.Writer.{writer_defaults, init}
use dnswire.Writer.Valid.{IsWriter}

module _ (t : Tinyframe) where
  -- With an allocator that gives blocks of the size it is asked for, `dnswire_writer_init` either
  -- fails or makes a well-formed writer, with nothing to send.
  pub writer_init_lem :
      (pb : Protobuf) (al : Allocator)
      → IsAllocator al
      → ((init t pb al).0 ≡ error)
        ⊎ (((init t pb al).0 ≡ ok)
            × IsWriter t (init t pb al).1
            × ((init t pb al).1.output.left ≡ 0))
  unfolding init writer_defaults defaults encoder_initializer
  writer_init_lem pb al laws = elim (Option-cases (al.malloc (writer_defaults t pb).output.size)) [
    | inl e ↦ rw (e, init) (inl refl)
    | inr (p, e) ↦
        let n = laws.malloc_length (writer_defaults t pb).output.size e in
        rw (e, init) (inr (refl, ground (arith, n), refl))
  ]
