-- ===== src/FileReader/Rounds.antt =====
-- A call of `dnswire_reader_read` on a reader of one direction goes forward.
use dnswire.Prelude.{
  ℕ, ◌+◌, ◌<◌, ◌≡◌, ◌⊎◌, refl, subst, [], true, false, none, some, length, ◌==◌, if◌then◌else◌,
  arith, Bool-cases, Option-cases, inl, inr,
}
use dnswire.Exec.{Exec, ret, ◌>>=◌, contents, Ensures}
use dnswire.Exec.Rules.{Ensures->>=, Ensures-mono}
use dnswire.Result.{error}
use dnswire.Alloc.{Allocator, IsAllocator}
use dnswire.Io.{Io, IsIo}
use dnswire.Buffer.{free_space, copy_in}
use dnswire.Buffer.Fill.{CopiedIn, copy_in_lem}
use dnswire.Tinyframe.{Tinyframe, IsTinyframe}
use dnswire.Dnstap.{Protobuf, IsProtobuf}
use dnswire.Decoder.Progress.{Advances}
use dnswire.Encoder.Loop.Ends.{is_set_of_IsPresent}
use dnswire.Reader.{
  Reader, ReaderState, reading_control, decoding_control, reading, decoding, done, Reply,
}
use dnswire.Reader.Decode.{decode_control, decode_data}
use dnswire.Reader.Read.{read_control, read_data, read_in, read}
use dnswire.Reader.Valid.{decodes, replies, writes, IsReader}
use dnswire.Reader.Transfers.{reads, received, loaded, free_space_lem}
use dnswire.ClientReceiver.Steps.{Goes, IsListening, Moves}
use dnswire.ClientReceiver.Rounds.{decode_control-Moves, decode_data-Moves}

module _ (t : Tinyframe) where
  -- A call that took `n` bytes and goes on has decoded, or has taken a byte at least.
  abbrev pub Took : Reader t → ℕ → Reply t → Type 0
  Took r n x = Moves t (r.input.left + n) x × (Goes x.0 → (decodes r.state ≡ true) ⊎ (0 < n))

module _ (t : Tinyframe) (pb : Protobuf) (al : Allocator) (tl : IsTinyframe t) (fw : Advances t)
    (pl : IsProtobuf pb) (laws : IsAllocator al) (io : Io) (il : IsIo io) where
  stuck : (left : ℕ) (r : Reader t) → IsListening t r → Moves t left (error, r)
  stuck left r v = record {
    denied = v.denied;
    one_way = v.one_way;
    roomy = λ g. absurd g;
    lighter = λ g. absurd g;
  }

  -- The cases that read, given the step that decodes.
  load-Took :
      (r : Reader t) (s : ReaderState) (f : Reader t → Exec (Reply t))
      → IsListening t r
      → writes r.state ≡ false
      → decodes s ≡ true
      → ((q : Reader t)
          → IsReader t q
          → q.allow_bidirectional ≡ false
          → q.is_bidirectional ≡ false
          → decodes q.state ≡ true
          → Ensures (Moves t q.input.left) (f q))
      → Ensures
          (Took t r (length (contents (io.read (free_space r.input)))))
          (elim (io.read (free_space r.input)) [
            | none ↦ ret (error, r)
            | some bs ↦
                if length bs == 0
                then ret (error, r)
                else do b ← copy_in r.input (length bs) bs; f (record r { input = b; state = s })
          ])
  load-Took r s f v w d k = elim (Option-cases (io.read (free_space r.input))) [
    | inl e ↦ rw e (stuck (r.input.left + 0) r v, λ g. absurd g)
    | inr (bs, e) ↦ elim (Bool-cases (length bs == 0)) [
      | inl z ↦ rw (e, z) (stuck (r.input.left + length bs) r v, λ g. absurd g)
      | inr z ↦
          rw (e, z)
            (Ensures->>= (CopiedIn r.input (length bs) bs) (Took t r (length bs))
              (copy_in r.input (length bs) bs) _
              (copy_in_lem r.input (length bs) bs v.valid.basic.input (omega arith) (
                omega (
                  arith,
                  il.read_fits (free_space r.input) e,
                  free_space_lem r.input v.valid.basic.input,
                  v.valid.basic.input.inside,
                )))
              λ b g.
                Ensures-mono (Moves t b.left) (Took t r (length bs))
                  (f (record r { input = b; state = s }))
                  (k (record r { input = b; state = s })
                    (loaded t r s bs b v.valid w d (ground arith) g) v.denied v.one_way d)
                  λ x m. (subst (λ n. Moves t n x) g.amount m, λ _. inr (ground arith)))
    ]
  ]

  not_loaded :
      (r : Reader t) (m : Exec (Reply t))
      → decodes r.state ≡ true
      → Ensures (Moves t r.input.left) m
      → Ensures (Took t r 0) m
  not_loaded r m d h =
      Ensures-mono (Moves t r.input.left) (Took t r 0) m h
        λ x w. (subst (λ n. Moves t n x) {x = r.input.left} (omega arith) w, λ _. inl d)

  read_in-Took :
      (s : ReaderState) (r : Reader t)
      → s ≡ r.state
      → IsListening t r
      → Ensures
          (Took t r (length (if reads s then contents (io.read (free_space r.input)) else [])))
          (read_in t pb al io s r)
  unfolding read_in read_control read_data
  read_in-Took reading_control r e v =
      load-Took r decoding_control (decode_control t pb al false) v
        (subst (λ s. writes s ≡ false) e refl) refl
        (decode_control-Moves t pb al tl fw pl laws false)
  read_in-Took reading r e v =
      load-Took r decoding (decode_data t pb al false) v (subst (λ s. writes s ≡ false) e refl) refl
        (decode_data-Moves t pb al tl fw pl laws false)
  read_in-Took decoding_control r e v =
      let busy : decodes r.state ≡ true = subst (λ s. decodes s ≡ true) e refl in
      not_loaded r _ busy
        (decode_control-Moves t pb al tl fw pl laws false r v.valid v.denied v.one_way busy)
  read_in-Took decoding r e v =
      let busy : decodes r.state ≡ true = subst (λ s. decodes s ≡ true) e refl in
      not_loaded r _ busy
        (decode_data-Moves t pb al tl fw pl laws false r v.valid v.denied v.one_way busy)
  read_in-Took done r e v = (stuck (r.input.left + 0) r v, λ g. absurd g)
  read_in-Took _ r e v =
      let both : r.is_bidirectional ≡ true =
        v.valid.replying (subst (λ s. replies s ≡ true) e refl) in
      cc (v.one_way)

  -- A call leaves less to do than there was, with what it has read.
  pub read-Took :
      (r : Reader t)
      → IsListening t r
      → Ensures (Took t r (length (received t io r))) (read t pb al io r)
  unfolding read
  read-Took r v =
      rw (is_set_of_IsPresent r.input.buf v.valid.basic.input.present)
        (read_in-Took r.state r refl v)
