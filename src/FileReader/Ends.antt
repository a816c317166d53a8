-- ===== src/FileReader/Ends.antt =====
-- The loop of examples/reader.c ends on every file.
use dnswire.Prelude.{
  ℕ, zero, suc, ◌+◌, ◌*◌, ◌≤◌, ◌<◌, ◌≡◌, ◌≢◌, refl, sym, subst, ap, ◌∙◌, true, [], ◌∷◌, ◌++◌,
  length, take, drop, some, arith, inl, inr, Bool-cases, Option-cases, length-append, length-take,
  drop-drop,
}
use mathlib.Core.List.{append_assoc, append-nil}
use mathlib.Core.Option.{some-injective}
use dnswire.Exec.{Exec, Bytes, Ensures}
use dnswire.Exec.Rules.{Ensures->>=, Ensures-mono, Ensures-Both}
use dnswire.Result.{Result, ok, error, again, need_more, have_dnstap, endofdata, bidirectional}
use dnswire.Alloc.{Allocator, IsAllocator}
use dnswire.Io.{IsIo}
use dnswire.Buffer.{free_space}
use dnswire.Buffer.Valid.{unread}
use dnswire.Tinyframe.{Tinyframe, IsTinyframe}
use dnswire.Dnstap.{Protobuf, IsProtobuf}
use dnswire.Decoder.Progress.{Advances}
use dnswire.Reader.{Reader, Reply, init}
use dnswire.ClientReceiver.Heard.{init-IsListening}
use dnswire.Reader.Read.{read}
use dnswire.Reader.Valid.{IsReader, Stepped}
use dnswire.Reader.Transfers.{reads, received}
use dnswire.Reader.Descriptor.{read_lem}
use dnswire.FileReader.{File, opened, Ended, on_read, read_all, read_file}
use dnswire.FileReader.Rounds.{Took, read-Took}
use dnswire.ClientReceiver.Steps.{Goes, IsListening, weight}
use dnswire.ClientReceiver.Ends.{Goes-ne-error, rest_of}

-- `read` gives no more bytes than it was asked for.
pub record IsFile (f : File) : Type 0 where
  pub give_fits : (rest : Bytes) (n : ℕ) {m : ℕ} → f.give rest n ≡ some m → m ≤ n

taken_front : (m : ℕ) (xs : Bytes) → take m xs ++ drop (length (take m xs)) xs ≡ xs
taken_front zero xs = refl
taken_front (suc m) [] = refl
taken_front (suc m) (x ∷ xs) = ap (λ l. x ∷ l) (taken_front m xs)

drop_front : (i : ℕ) (a b c : Bytes) → a ≡ drop i b → (j : ℕ) × (a ++ c ≡ drop j (b ++ c))
drop_front i a b c e =
    let w = rest_of i 0 b c in
    (w.0, ap (λ z. z ++ c) (e ∙ ap (λ z. drop i z) (sym (append-nil b))) ∙ w.1)

module _ (f : File) (laws : IsFile f) where
  opened-read :
      (rest : Bytes) (n : ℕ) {bs : Bytes} → (opened f rest).read n ≡ some bs → length bs ≤ n
  opened-read rest n {bs} e = elim (Option-cases (f.give rest n)) [
    | inl g ↦ cc
    | inr (m, g) ↦
        let h : some (take m rest) ≡ some bs = rw g at e in
        rw (← some-injective _ _ h) (omega (arith, laws.give_fits rest n g, length-take m rest))
  ]

  opened-IsIo : (rest : Bytes) → IsIo (opened f rest)
  opened-IsIo rest = record { read_fits = opened-read rest; write_fits = λ w e. cc }

module _ (t : Tinyframe) (f : File) where
  -- What a call leaves of the file.
  abbrev left_of : Bytes → Reader t → Bytes
  left_of rest r = drop (length (received t (opened f rest) r)) rest

  -- What a call reads is the front of what is left of the file.
  received_front :
      (rest : Bytes) (r : Reader t)
      → received t (opened f rest) r ++ drop (length (received t (opened f rest) r)) rest ≡ rest
  received_front rest r = elim (Bool-cases (reads r.state)) [
    | inl e ↦ elim (Option-cases (f.give rest (free_space r.input))) [
      | inl g ↦ rw (e, g) refl
      | inr (m, g) ↦ rw (e, g) (taken_front m rest)
    ]
    | inr e ↦ rw e refl
  ]

  -- Nothing is lost: what is unread and what is left of the file are the end of what there was; and
  -- a reader that has met the end of the stream is well formed.
  abbrev pub Finished : Bytes → Ended t → Type 0
  Finished before y =
      ((i : ℕ) × (unread y.reader.input ++ y.rest ≡ drop i before))
      × (y.stopped ≡ true → IsReader t y.reader)

  Finished-later :
      (a b : Bytes) (i : ℕ) (m : Exec (Ended t))
      → a ≡ drop i b
      → Ensures (Finished a) m
      → Ensures (Finished b) m
  Finished-later a b i m e h =
      Ensures-mono (Finished a) (Finished b) m h
        λ y w. ((i + w.0.0, w.0.1 ∙ ap (λ l. drop w.0.0 l) e ∙ drop-drop w.0.0 i b), w.1)

  on_read-Finished :
      (x : Result) (q : Reader t) (rest before : Bytes) (next : Exec (Ended t))
      → ((i : ℕ) × (unread q.input ++ rest ≡ drop i before))
      → (x ≢ error → IsReader t q)
      → (Goes x → Ensures (Finished before) next)
      → Ensures (Finished before) (on_read t next x q rest)
  unfolding on_read
  on_read-Finished have_dnstap q rest before next e v h =
      Ensures->>= (Finished before) (Finished before) next _ (h tt) (λ y w. w)
  on_read-Finished again q rest before next e v h = h tt
  on_read-Finished need_more q rest before next e v h = h tt
  on_read-Finished endofdata q rest before next e v h = (e, λ s. v (λ p. cc))
  on_read-Finished ok q rest before next e v h = (e, λ s. cc)
  on_read-Finished error q rest before next e v h = (e, λ s. cc)
  on_read-Finished bidirectional q rest before next e v h = (e, λ s. cc)

module _ (t : Tinyframe) where
  moved-IsListening :
      (r : Reader t) (n : ℕ) (x : Reply t)
      → (x.0 ≢ error → IsReader t x.1)
      → Took t r n x
      → Goes x.0
      → IsListening t x.1
  moved-IsListening r n x v w g = record {
    valid = v (Goes-ne-error t x.0 g);
    denied = w.0.denied;
    one_way = w.0.one_way;
    roomy = w.0.roomy g;
  }

  moved_lighter :
      (r : Reader t) (n : ℕ) (x : Reply t)
      → Took t r n x
      → Goes x.0
      → weight t x.1 < weight t r + 3 * n
  moved_lighter r n x w g = elim (w.1 g) [
    | inl d ↦ let y : weight t r ≡ 2 * r.input.left + 1 = rw d in omega (arith, w.0.lighter g)
    | inr p ↦ omega (arith, w.0.lighter g)
  ]

module _ (t : Tinyframe) (pb : Protobuf) (al : Allocator) (tl : IsTinyframe t) (fw : Advances t)
    (pl : IsProtobuf pb) (laws : IsAllocator al) (f : File) (fl : IsFile f) where
  read_all-Finished :
      (fuel : ℕ) (rest : Bytes) (r : Reader t)
      → IsListening t r
      → 3 * length rest + weight t r < fuel
      → Ensures (Finished t f (unread r.input ++ rest)) (read_all t pb al f fuel rest r)
  unfolding read_all
  read_all-Finished zero rest r v m = absurd (omega arith)
  read_all-Finished (suc fuel) rest r v m =
      let io = opened f rest in
      let recv = received t io r in
      let left = drop (length recv) rest in
      let front : recv ++ left ≡ rest = received_front t f rest r in
      let sizes : length recv + length left ≡ length rest =
        sym (length-append recv left) ∙ ap length front in
      Ensures->>= (λ x. Stepped t (unread r.input ++ recv) r.pushed x × Took t r (length recv) x)
        (Finished t f (unread r.input ++ rest)) (read t pb al io r) _
        (Ensures-Both (Stepped t (unread r.input ++ recv) r.pushed) (Took t r (length recv))
          (read t pb al io r) (read_lem t pb al tl pl laws io (opened-IsIo f fl rest) r v.valid)
          (read-Took t pb al tl fw pl laws io (opened-IsIo f fl rest) r v))
        λ x w.
          let e =
            drop_front w.0.queue.0 (unread x.1.input) (unread r.input ++ recv) left w.0.queue.1 in
          let whole : unread x.1.input ++ left ≡ drop e.0 (unread r.input ++ rest) =
            e.1
            ∙ ap (λ z. drop e.0 z)
                (append_assoc (unread r.input) recv left ∙ ap (λ z. unread r.input ++ z) front) in
          on_read-Finished t f x.0 x.1 left (unread r.input ++ rest) _ (e.0, whole) w.0.valid
            λ g.
              Finished-later t f (unread x.1.input ++ left) (unread r.input ++ rest) e.0 _ whole (
                read_all-Finished fuel left x.1
                  (moved-IsListening t r (length recv) x w.0.valid w.1 g)
                  (omega (arith, moved_lighter t r (length recv) x w.1 g)))

  read_file_lem :
      (rest : Bytes) (r : Reader t)
      → IsListening t r
      → Ensures (Finished t f (unread r.input ++ rest)) (read_file t pb al f rest r)
  unfolding read_file
  read_file_lem rest r v =
      read_all-Finished (suc (3 * length rest + (2 * r.input.left + 1))) rest r v (ground arith)

  -- For libraries with the properties in `IsTinyframe`, `IsProtobuf` and `IsAllocator`, a
  -- tinyframe whose parts are not empty, a `dnswire_reader_init` that succeeds, and a file whose
  -- `read` gives no more than was asked for, but may give less or fail at any time: the loop of
  -- examples/reader.c returns on every file, without a fault and within the rounds that the model
  -- allows. The bytes that are unread then, followed by what was not read of the file, are the
  -- file less a part from its front; and if the loop ended with the end of the stream, the reader
  -- is well formed.
  pub read_file-Finished :
      (rest : Bytes)
      → (init t pb al).0 ≡ ok
      → Ensures (Finished t f rest) (read_file t pb al f rest (init t pb al).1)
  read_file-Finished rest e =
      let v = init-IsListening t pb al laws e in
      subst (λ u. Ensures (Finished t f (u ++ rest)) (read_file t pb al f rest (init t pb al).1))
        v.1 (read_file_lem rest (init t pb al).1 v.0)
