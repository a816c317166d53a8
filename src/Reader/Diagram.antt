-- ===== src/Reader/Diagram.antt =====
-- `dnswire_reader_read` of src/reader.c follows the diagram of its states.
use dnswire.Prelude.{
  ◌≡◌, refl, sym, subst, ◌∙◌, Bool, false, inl, inr, Option-cases, length, ◌==◌, Bool-cases,
}
use dnswire.Exec.{Exec, ret, assert, Allows}
use dnswire.Exec.Rules.{Allows->>=, later}
use dnswire.Result.{Result, error, again, endofdata}
use dnswire.Result.Failing.{Or, of_P, Or-Allows}
use dnswire.Alloc.{Allocator}
use dnswire.Io.{Io}
use dnswire.Buffer.{free_space, copy_in, head, drain, window}
use dnswire.Decoder.{decode}
use dnswire.Encoder.Loop.{is_set}
use dnswire.Tinyframe.{Tinyframe}
use dnswire.Dnstap.{Protobuf}
use dnswire.Reader.{
  Reader, ReaderState, reading_control, decoding_control, writing_accept, decoding, writing_finish,
  done, Reply, reader_encoding,
}
use dnswire.Reader.Decode.{decode_input, decode_control, decode_data}
use dnswire.Reader.Read.{read_control, read_data, write_fd, read_accept, read_finish, read_in, read}
use dnswire.Reader.Paths.{Control, Data, Step, On, on_control-On, on_data-On}
use dnswire.Reader.Paths

Or-Step :
    (b a : Bool) (s : ReaderState) (r : Result) (s' : ReaderState)
    → Or (Step b a s) r s'
    → Step b a s r s'
Or-Step b a s error s' p = Paths.fail
Or-Step b a s _ s' p = p

module _ (t : Tinyframe) (pb : Protobuf) (al : Allocator) where
  map :
      (P Q : Result → ReaderState → Type 0) (m : Exec (Reply t))
      → ((r : Result) (s : ReaderState) → P r s → Q r s)
      → Allows (On t P) m
      → Allows (On t Q) m
  map = Or-Allows (λ x. x.state)

  -- Only the decoder changes.
  abbrev Same : Reader t → Reply t → Type 0
  Same r x =
      (x.1.state ≡ r.state)
      × (x.1.is_bidirectional ≡ r.is_bidirectional)
      × (x.1.allow_bidirectional ≡ r.allow_bidirectional)

  decode_input-Same : (r : Reader t) → Allows (Same r) (decode_input t pb al r)
  unfolding decode_input
  decode_input-Same r =
      later (Same r) (window r.input) _
        λ s. later (Same r) (decode t pb r.decoder s) _ λ x. (refl, refl, refl)

  decode_control-On :
      (r : Reader t)
      → r.state ≡ decoding_control
      → Allows
          (On t (Control r.is_bidirectional r.allow_bidirectional))
          (decode_control t pb al false r)
  unfolding decode_control
  decode_control-On r e =
      Allows->>= (Same r) (On t (Control r.is_bidirectional r.allow_bidirectional))
        (decode_input t pb al r) _ (decode_input-Same r)
        λ x (s, b, a).
          map (Control x.1.is_bidirectional x.1.allow_bidirectional)
            (Control r.is_bidirectional r.allow_bidirectional) _
            (λ y z c.
              subst (λ u. Control r.is_bidirectional u y z) a
                (subst (λ u. Control u x.1.allow_bidirectional y z) b c))
            (on_control-On t al x.0 x.1 (s ∙ e))

  decode_data-On :
      (r : Reader t)
      → r.state ≡ decoding
      → Allows (On t (Data r.is_bidirectional)) (decode_data t pb al false r)
  unfolding decode_data
  decode_data-On r e =
      Allows->>= (Same r) (On t (Data r.is_bidirectional)) (decode_input t pb al r) _
        (decode_input-Same r)
        λ x (s, b, a).
          map (Data x.1.is_bidirectional) (Data r.is_bidirectional) _
            (λ y z c. subst (λ u. Data u y z) b c) (on_data-On t al x.0 x.1 (s ∙ e))

  module _ (io : Io) where
    read_control-On :
        (r : Reader t)
        → Allows
            (On t (Control r.is_bidirectional r.allow_bidirectional))
            (read_control t pb al io r)
    unfolding read_control
    read_control-On r = elim (Option-cases (io.read (free_space r.input))) [
      | inl n ↦ rw (n, read_control) tt
      | inr (bs, n) ↦ elim (Bool-cases (length bs == 0)) [
        | inl z ↦ rw (n, z, read_control) tt
        | inr z ↦
            rw (n, z, read_control)
              (later _ (copy_in r.input (length bs) bs) _ λ b. decode_control-On _ refl)
      ]
    ]

    read_data-On : (r : Reader t) → Allows (On t (Data r.is_bidirectional)) (read_data t pb al io r)
    unfolding read_data
    read_data-On r = elim (Option-cases (io.read (free_space r.input))) [
      | inl n ↦ rw (n, read_data) tt
      | inr (bs, n) ↦ elim (Bool-cases (length bs == 0)) [
        | inl z ↦ rw (n, z, read_data) tt
        | inr z ↦
            rw (n, z, read_data)
              (later _ (copy_in r.input (length bs) bs) _ λ b. decode_data-On _ refl)
      ]
    ]

    write_fd-On :
        (P : Result → ReaderState → Type 0) (next : ReaderState) (last : Result) (r : Reader t)
        → P again r.state
        → P last next
        → Allows (On t P) (write_fd t pb al io next last r)
    unfolding write_fd
    write_fd-On P next last r q p = later (On t P) (head r.output r.output.left) _ λ h.
        elim (Option-cases (io.write h)) [
          | inl n ↦ rw n tt
          | inr (m, n) ↦ elim (Bool-cases (m == 0)) [
            | inl z ↦ rw (n, z) tt
            | inr z ↦ elim (Bool-cases ((drain r.output m).left == 0)) [
              | inl f ↦ rw (n, z, f) (of_P P last next p)
              | inr f ↦ rw (n, z, f) q
            ]
          ]
        ]

    read_accept-On :
        (P : Result → ReaderState → Type 0) (x : Result) (r : Reader t)
        → P again writing_accept
        → P again reading_control
        → Allows (On t P) (read_accept t pb al io x r)
    unfolding read_accept
    read_accept-On P Result.again r q p =
        write_fd-On P reading_control again (record r { state = writing_accept }) q p
    read_accept-On P _ r q p = tt

    read_finish-On :
        (P : Result → ReaderState → Type 0) (x : Result) (r : Reader t)
        → P again writing_finish
        → P endofdata done
        → Allows (On t P) (read_finish t pb al io x r)
    unfolding read_finish
    read_finish-On P Result.endofdata r q p =
        write_fd-On P done endofdata (record r { state = writing_finish }) q p
    read_finish-On P _ r q p = tt

    abbrev From : Reader t → ReaderState → Result → ReaderState → Type 0
    From r s = Step r.is_bidirectional r.allow_bidirectional s

    read_in-Step :
        (s : ReaderState) (r : Reader t)
        → s ≡ r.state
        → Allows (On t (From r s)) (read_in t pb al io s r)
    unfolding read_in
    read_in-Step ReaderState.reading_control r e =
        map (Control r.is_bidirectional r.allow_bidirectional) (From r ReaderState.reading_control)
          _ (λ y z. Paths.control_read) (read_control-On r)
    read_in-Step ReaderState.decoding_control r e =
        map (Control r.is_bidirectional r.allow_bidirectional) (From r ReaderState.decoding_control)
          _ (λ y z. Paths.control_decoded) (decode_control-On r (sym e))
    read_in-Step ReaderState.encoding_accept r e =
        later (On t (From r ReaderState.encoding_accept)) (reader_encoding t pb al r) _ λ x.
          read_accept-On (From r ReaderState.encoding_accept) x.0 x.1 Paths.accept_part Paths.accept
    read_in-Step ReaderState.writing_accept r e =
        write_fd-On (From r ReaderState.writing_accept) reading_control again r
          (subst (λ z. From r ReaderState.writing_accept again z) e Paths.accept_rest)
          Paths.accept_end
    read_in-Step ReaderState.reading r e =
        map (Data r.is_bidirectional) (From r ReaderState.reading) _ (λ y z. Paths.data_read)
          (read_data-On r)
    read_in-Step ReaderState.decoding r e =
        map (Data r.is_bidirectional) (From r ReaderState.decoding) _ (λ y z. Paths.data_decoded)
          (decode_data-On r (sym e))
    read_in-Step ReaderState.encoding_finish r e =
        later (On t (From r ReaderState.encoding_finish)) (reader_encoding t pb al r) _ λ x.
          read_finish-On (From r ReaderState.encoding_finish) x.0 x.1 Paths.finish_part Paths.finish
    read_in-Step ReaderState.writing_finish r e =
        write_fd-On (From r ReaderState.writing_finish) done endofdata r
          (subst (λ z. From r ReaderState.writing_finish again z) e Paths.finish_rest)
          Paths.finish_end
    read_in-Step ReaderState.done r e = tt

    -- Whenever `dnswire_reader_read` returns, it returns `dnswire_error`, or its result and the
    -- change of state are an edge of the diagram in Reader/Paths.antt. In it `encoding_accept` is
    -- entered from the control frames only if bidirectional sessions are allowed, and
    -- `encoding_finish` only if the session is bidirectional; the edges from these states, and
    -- from those that write the reply, do not ask for that again.
    pub read-Step :
        (r : Reader t) {x : Result} {v : Reader t}
        → read t pb al io r ≡ ret (x, v)
        → Step r.is_bidirectional r.allow_bidirectional r.state x v.state
    unfolding read
    read-Step r {x} {v} h = Or-Step r.is_bidirectional r.allow_bidirectional r.state x v.state (
        subst (Allows (On t (From r r.state))) h
          (later _ (assert (is_set r.input.buf)) _ λ u. read_in-Step r.state r refl))
