-- ===== src/ClientReceiver/Heard.antt =====
-- A whole connection of examples/client_receiver_uv.c: `main` makes the reader, and libuv calls
-- `client_read` with what arrives.
use dnswire.Prelude.{
  ℕ, ◌<◌, ◌≡◌, refl, ◌∙◌, sym, subst, ap, inl, inr, false, ◌++◌, [], length, drop, take, arith,
  Option-cases, drop-drop, ◌+◌,
}
use mathlib.Core.List.{append-nil}
use dnswire.Prelude.Size.{size_mod}
use dnswire.Exec.{ret, Bytes, Ensures, contents}
use dnswire.Result.{ok}
use dnswire.Alloc.{Allocator, IsAllocator}
use dnswire.Buffer.{default_buf_size}
use dnswire.Buffer.Valid.{unread}
use dnswire.Tinyframe.{Tinyframe, IsTinyframe}
use dnswire.Dnstap.{Protobuf, IsProtobuf}
use dnswire.Decoder.Progress.{Advances}
use dnswire.Reader.{Reader, init, reader_defaults, set_allow_bidirectional}
use dnswire.Reader.Setup.{init_lem, set_allow_bidirectional_lem}
use dnswire.ClientReceiver.{Fed, got, client_read}
use dnswire.ClientReceiver.Steps.{IsListening}
use dnswire.ClientReceiver.Ends.{Kept, client_read_lem, rest_of}

module _ (t : Tinyframe) (pb : Protobuf) where
  -- The reader after `client_read` was called with some bytes, as long as the connection is open.
  pub data Heard : Bytes → Reader t → Type 0 where
    ready :
        (al : Allocator) (r : Reader t)
        → IsAllocator al
        → (init t pb al).0 ≡ ok
        → r ≡ (set_allow_bidirectional t al (init t pb al).1 false).1
        → Heard [] r
    heard :
        (al : Allocator) (before bs all : Bytes) (r q : Reader t) (y : Fed t)
        → IsAllocator al
        → Heard before r
        → length bs < size_mod
        → client_read t pb al (got bs) r ≡ ret y
        → y.closed ≡ false
        → all ≡ before ++ bs
        → q ≡ y.reader
        → Heard all q

  init_one_way : (al : Allocator) → (init t pb al).1.is_bidirectional ≡ false
  unfolding init reader_defaults
  init_one_way al = elim (Option-cases (al.malloc default_buf_size)) [
    | inl e ↦ rw (e, init) refl
    | inr (p, e) ↦ rw (e, init) refl
  ]

  init_denied : (al : Allocator) → (init t pb al).1.allow_bidirectional ≡ false
  unfolding init reader_defaults
  init_denied al = elim (Option-cases (al.malloc default_buf_size)) [
    | inl e ↦ rw (e, init) refl
    | inr (p, e) ↦ rw (e, init) refl
  ]

  -- A reader that `dnswire_reader_init` makes.
  pub init-IsListening :
      (al : Allocator)
      → IsAllocator al
      → (init t pb al).0 ≡ ok
      → IsListening t (init t pb al).1 × (unread (init t pb al).1.input ≡ [])
  unfolding init reader_defaults
  init-IsListening al laws e = elim (init_lem t al laws pb) [
    | inl h ↦ cc
    | inr h ↦
        let z : (init t pb al).1.input.at ≡ 0 = h.1.basic.input.rewound h.3 in
        let p : 0 < (init t pb al).1.input.size = h.1.basic.input.sized.nonempty in
        (
          record {
            valid = h.1;
            denied = init_denied al;
            one_way = init_one_way al;
            roomy = λ d. omega (arith, h.3);
          },
          ap (λ n. take n (drop (init t pb al).1.input.at (contents (init t pb al).1.input.buf)))
              {x = (init t pb al).1.input.left} {y = 0} h.3,
        )
  ]

  -- The reader that `main` makes.
  ready-IsListening :
      (al : Allocator) (r : Reader t)
      → IsAllocator al
      → (init t pb al).0 ≡ ok
      → r ≡ (set_allow_bidirectional t al (init t pb al).1 false).1
      → IsListening t r × (unread r.input ≡ [])
  unfolding set_allow_bidirectional
  ready-IsListening al r laws e q =
      let v = init-IsListening al laws e in
      rw q (
        record {
          valid = (set_allow_bidirectional_lem t al laws (init t pb al).1 false v.0.valid).0;
          denied = refl;
          one_way = v.0.one_way;
          roomy = v.0.roomy;
        },
        v.1,
      )

  -- For libraries with the properties in `IsTinyframe` and `IsProtobuf`, and a tinyframe whose
  -- parts are not empty: from the reader that `main` makes, as long as the connection is open,
  -- every call of `client_read` with fewer than 2^64 bytes leaves a well-formed reader of one
  -- direction with room for more whenever it is not decoding, and its unread bytes are all that
  -- has arrived, less a part from the front.
  pub Heard-IsListening :
      (all : Bytes) (r : Reader t)
      → IsTinyframe t
      → Advances t
      → IsProtobuf pb
      → Heard all r
      → IsListening t r × ((i : ℕ) × (unread r.input ≡ drop i all))
  Heard-IsListening _ _ tl fw pl (ready al r laws e q) =
      let w = ready-IsListening al r laws e q in (w.0, (0, w.1))
  Heard-IsListening _ _ tl fw pl (heard al before bs all r q y laws h small e open_ ea eq) =
      let ih = Heard-IsListening before r tl fw pl h in
      let w =
        subst (Ensures (Kept t (unread r.input ++ bs))) e
          (client_read_lem t pb al tl fw pl laws bs r ih.0 small) open_ in
      let front = rest_of ih.1.0 0 before bs in
      let both : unread r.input ++ bs ≡ drop front.0 (before ++ bs) =
        ap (λ z. z ++ bs) (ih.1.1 ∙ ap (λ z. drop ih.1.0 z) (sym (append-nil before))) ∙ front.1 in
      rw (eq, ea)
        (
          w.0,
          (
            front.0 + w.1.0,
            w.1.1 ∙ ap (λ z. drop w.1.0 z) both ∙ drop-drop w.1.0 front.0 (before ++ bs),
          ),
        )
