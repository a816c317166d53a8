-- ===== src/ClientReceiver/Ends.antt =====
-- The loop of examples/client_receiver_uv.c ends.
use dnswire.Prelude.{
  ℕ, zero, suc, ◌+◌, ◌*◌, ◌-◌, ◌≤◌, ◌<◌, ◌≡◌, ◌≢◌, refl, sym, ap, ◌∙◌, false, [], ◌∷◌, ◌++◌, length,
  take, drop, ltb, none, arith, inl, inr, Bool-cases, leb, length-drop, drop-append, drop-append_le,
  drop-drop, take-append-drop,
}
use mathlib.Core.List.{append_assoc, append-nil}
use Prim.Native.Nat.{min}
use dnswire.Prelude.Size.{size_mod, add_size_exact}
use dnswire.Exec.{Exec, Bytes, Ensures}
use dnswire.Exec.Rules.{Ensures->>=, Ensures-mono}
use dnswire.Result.{Result, ok, error, again, need_more, have_dnstap, endofdata, bidirectional}
use dnswire.Alloc.{Allocator, IsAllocator}
use dnswire.Buffer.Valid.{unread}
use dnswire.Tinyframe.{Tinyframe, IsTinyframe}
use dnswire.Dnstap.{Dnstap, Protobuf, IsProtobuf}
use dnswire.Decoder.Progress.{Advances}
use dnswire.Reader.{Reader}
use dnswire.Reader.Valid.{decodes}
use dnswire.Reader.Push.{Pushed, push}
use dnswire.ClientReceiver.{Fed, print_before, on_pushed, feed, rounds, client_read, got}
use dnswire.ClientReceiver.Steps.{Goes, takes, IsListening, weight}
use dnswire.ClientReceiver.Turns.{Turned, push-Turned}

drop_all : (n : ℕ) (xs : Bytes) → length xs ≤ n → drop n xs ≡ []
drop_all zero [] h = refl
drop_all zero (x ∷ xs) h = absurd (omega arith)
drop_all (suc n) [] h = refl
drop_all (suc n) (x ∷ xs) h = drop_all n xs (omega arith)

-- Some bytes from the front are dropped, and more are put at the end.
pub rest_of :
    (j p : ℕ) (u s : Bytes) → (i : ℕ) × (drop j (u ++ take p s) ++ drop p s ≡ drop i (u ++ s))
rest_of j p u s =
    let whole : (u ++ take p s) ++ drop p s ≡ u ++ s =
      append_assoc u (take p s) (drop p s) ∙ ap (λ z. u ++ z) (take-append-drop p s) in
    elim (Bool-cases (leb j (length (u ++ take p s)))) [
      | inl e ↦ (
        j,
        sym (drop-append_le j (u ++ take p s) (drop p s) (ground arith)) ∙ ap (λ z. drop j z) whole,
      )
      | inr e ↦ (
        length (u ++ take p s),
        ap (λ z. z ++ drop p s) (drop_all j (u ++ take p s) (ground arith))
            ∙ sym (drop-append (u ++ take p s) (drop p s))
            ∙ ap (λ z. drop (length (u ++ take p s)) z) whole,
      )
    ]

module _ (t : Tinyframe) where
  -- The connection is closed, or all the data is pushed: the reader is ready for more, and what is
  -- unread is what was and then the data, less a part from the front.
  abbrev pub Kept : Bytes → Fed t → Type 0
  Kept before y =
      y.closed ≡ false
      → IsListening t y.reader × ((i : ℕ) × (unread y.reader.input ≡ drop i before))

  Kept-print :
      (d : Dnstap) (before : Bytes) (m : Exec (Fed t))
      → Ensures (Kept before) m
      → Ensures (Kept before) (print_before t d m)
  Kept-print d before m h = Ensures->>= (Kept before) (Kept before) m _ h (λ y w. w)

  -- Only the results that go on need the rest of the loop.
  on_pushed-Kept :
      (x : Result) (q : Reader t) (before : Bytes) (next : Exec (Fed t))
      → (Goes x → Ensures (Kept before) next)
      → Ensures (Kept before) (on_pushed t next x q)
  unfolding on_pushed
  on_pushed-Kept have_dnstap q before next h = Kept-print q.decoder.dnstap before next (h tt)
  on_pushed-Kept again q before next h = h tt
  on_pushed-Kept need_more q before next h = h tt
  on_pushed-Kept endofdata q before next h = λ e. absurd (cc)
  on_pushed-Kept ok q before next h = λ e. absurd (cc)
  on_pushed-Kept error q before next h = λ e. absurd (cc)
  on_pushed-Kept bidirectional q before next h = λ e. absurd (cc)

  pub Goes-ne-error : (x : Result) → Goes x → x ≢ error
  Goes-ne-error again g e = cc
  Goes-ne-error need_more g e = cc
  Goes-ne-error have_dnstap g e = cc
  Goes-ne-error ok g e = absurd g
  Goes-ne-error error g e = absurd g
  Goes-ne-error endofdata g e = absurd g
  Goes-ne-error bidirectional g e = absurd g

  Kept-later :
      (a b : Bytes) (i : ℕ) (m : Exec (Fed t))
      → a ≡ drop i b
      → Ensures (Kept a) m
      → Ensures (Kept b) m
  Kept-later a b i m e h = Ensures-mono (Kept a) (Kept b) m h λ y w c.
      let z = w c in (z.0, (i + z.1.0, z.1.1 ∙ ap (λ l. drop z.1.0 l) e ∙ drop-drop z.1.0 i b))

module _ (t : Tinyframe) (pb : Protobuf) (al : Allocator) (tl : IsTinyframe t) (fw : Advances t)
    (pl : IsProtobuf pb) (laws : IsAllocator al) where
  pub Turned-IsListening :
      (r : Reader t) (src : Bytes) (x : Pushed t)
      → Turned t pb al tl fw pl laws r src x
      → Goes x.result
      → IsListening t x.reader
  Turned-IsListening r src x w g = record {
    valid = w.good.valid (Goes-ne-error t x.result g);
    denied = w.advanced.moved.denied;
    one_way = w.advanced.moved.one_way;
    roomy = w.advanced.moved.roomy g;
  }

  -- What a round takes and decodes makes less to do.
  Turned-lighter :
      (r : Reader t) (src : Bytes) (x : Pushed t)
      → IsListening t r
      → 0 < length src
      → Turned t pb al tl fw pl laws r src x
      → Goes x.result
      → weight t x.reader < weight t r + 3 * x.reader.pushed
  Turned-lighter r src x v p w g =
      let a : x.reader.pushed ≡ takes t r src = w.advanced.amount g in
      let b : weight t x.reader < 2 * (r.input.left + takes t r src) + 1 =
        w.advanced.moved.lighter g in
      elim (Bool-cases (decodes r.state)) [
        | inl e ↦
            let z : takes t r src ≡ 0 = rw e in
            let y : weight t r ≡ 2 * r.input.left + 1 = rw e in omega arith
        | inr e ↦
            let z : takes t r src ≡ min (r.input.size - r.input.at - r.input.left) (length src) =
              rw e in
            let y : weight t r ≡ 2 * r.input.left + 0 = rw e in omega (arith, v.roomy e)
      ]

  feed-Kept :
      (fuel : ℕ) (bs : Bytes) (r : Reader t) (k : ℕ)
      → IsListening t r
      → k ≤ length bs
      → length bs < size_mod
      → 3 * (length bs - k) + weight t r < fuel
      → Ensures (Kept t (unread r.input ++ drop k bs)) (feed t pb al fuel bs r k)
  unfolding feed
  feed-Kept zero bs r k v h small m = absurd (omega arith)
  feed-Kept (suc fuel) bs r k v h small m = elim (Bool-cases (ltb k (length bs))) [
    | inl e ↦ rw e (
        let src = drop k bs in
        let len : length src ≡ length bs - k = length-drop k bs in
        let some_left : k < length bs = ground arith in
        Ensures->>= (Turned t pb al tl fw pl laws r src) (Kept t (unread r.input ++ src))
          (push t pb al r src none none) _
          (push-Turned t pb al tl fw pl laws r src v (omega arith) (omega arith))
          λ x w. on_pushed-Kept t x.result x.reader (unread r.input ++ src) _ λ g.
            let q = x.reader in
            let i = rest_of w.good.queue.0 q.pushed (unread r.input) src in
            let taken : q.pushed ≤ length src = w.good.taken in
            rw (add_size_exact k q.pushed (omega arith)) (
              Kept-later t (unread q.input ++ drop (k + q.pushed) bs) (unread r.input ++ src) i.0 _
                (ap (λ z. z ++ drop (k + q.pushed) bs) w.good.queue.1
                  ∙ ap (λ z. drop w.good.queue.0 (unread r.input ++ take q.pushed src) ++ z)
                      (sym (drop-drop q.pushed k bs))
                  ∙ i.1)
                (feed-Kept fuel bs q (k + q.pushed) (Turned-IsListening r src x w g) (omega arith)
                  small (omega (arith, Turned-lighter r src x v (omega arith) w g)))))
    | inr e ↦ rw e (λ c. (
      v,
      (
        0,
        sym (
            ap (λ z. unread r.input ++ z) (drop_all k bs (ground arith))
            ∙ append-nil (unread r.input)),
      ),
    ))
  ]

  -- For libraries with the properties in `IsTinyframe`, `IsProtobuf` and `IsAllocator`, a
  -- tinyframe whose parts are not empty, and a well-formed reader of one direction that has room
  -- whenever it is not decoding: `client_read` returns on fewer than 2^64 bytes, without a fault
  -- and within the rounds that the model allows, so its loop ends. Unless it has closed the
  -- connection, such a reader is left, and its unread bytes are those before and then the bytes
  -- given, less a part from the front.
  pub client_read_lem :
      (bs : Bytes) (r : Reader t)
      → IsListening t r
      → length bs < size_mod
      → Ensures (Kept t (unread r.input ++ bs)) (client_read t pb al (got bs) r)
  unfolding client_read rounds
  client_read_lem bs r v h =
      feed-Kept (suc (3 * length bs + (2 * r.input.left + 1))) bs r 0 v (omega arith) h
        (ground arith)
