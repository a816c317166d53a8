-- ===== src/Reader/Sessions.antt =====
-- A whole life of a reader of src/reader.c: `dnswire_reader_init`, and then `push`, `read`,
-- `allow_bidirectional` and the setters of the limits in any order.
use dnswire.Prelude.{ℕ, ◌+◌, ◌≤◌, ◌<◌, ◌≡◌, ◌≢◌, ◌||◌, subst, Bool, true, inl, inr, Option, length}
use dnswire.Prelude.Size.{size_mod}
use dnswire.Exec.{ret, Bytes, Ensures}
use dnswire.Result.{ok, error}
use dnswire.Alloc.{Allocator, IsAllocator}
use dnswire.Io.{Io, IsIo}
use dnswire.Buffer.Valid.{unread}
use dnswire.Tinyframe.{Tinyframe, IsTinyframe}
use dnswire.Dnstap.{Protobuf, IsProtobuf}
use dnswire.Prelude.{◌++◌}
use dnswire.Reader.{
  Reader, Reply, init, set_allow_bidirectional, set_bufsize, set_bufinc, set_bufmax,
}
use dnswire.Reader.Push.{Pushed, push}
use dnswire.Reader.Read.{read}
use dnswire.Reader.Replies.{OutOk}
use dnswire.Reader.Valid.{IsReader, Stepped}
use dnswire.Reader.Feeding.{Good}
use dnswire.Reader.Safe.{push_lem}
use dnswire.Reader.Transfers.{received}
use dnswire.Reader.Descriptor.{read_lem}
use dnswire.Reader.Setup.{
  init_lem, set_allow_bidirectional_lem, set_bufsize_lem, set_bufinc-IsReader, set_bufmax-IsReader,
}

module _ (t : Tinyframe) (pb : Protobuf) where
  -- The readers that calls lead to, each with its own answers of the heap and the descriptor; after
  -- `dnswire_error` from `push` or `read` the reader is not used again.
  pub data Reached : Reader t → Type 0 where
    started : (al : Allocator) → IsAllocator al → (init t pb al).0 ≡ ok → Reached (init t pb al).1
    allowed :
        (al : Allocator) (b : Bool) {r : Reader t}
        → IsAllocator al
        → Reached r
        → Reached (set_allow_bidirectional t al r b).1
    resized :
        (al : Allocator) (n : ℕ) {r : Reader t} {x : Reply t}
        → IsAllocator al
        → Reached r
        → 0 < n
        → set_bufsize t al r n ≡ ret x
        → Reached x.1
    increased :
        (n : ℕ) {r : Reader t} {x : Reply t}
        → Reached r
        → 0 < n
        → r.input.max + n < size_mod
        → set_bufinc t r n ≡ ret x
        → Reached x.1
    limited :
        (n : ℕ) {r : Reader t} {x : Reply t}
        → Reached r
        → 0 < n
        → n + r.input.inc < size_mod
        → set_bufmax t r n ≡ ret x
        → Reached x.1
    pushed :
        (al : Allocator) (src : Bytes) (od : Option Bytes) (ol : Option ℕ) {r : Reader t}
        {x : Pushed t}
        → IsAllocator al
        → Reached r
        → length src < size_mod
        → ((r.allow_bidirectional || r.is_bidirectional) ≡ true → OutOk od ol)
        → push t pb al r src od ol ≡ ret x
        → x.result ≢ error
        → Reached x.reader
    was_read :
        (al : Allocator) (io : Io) {r : Reader t} {x : Reply t}
        → IsAllocator al
        → IsIo io
        → Reached r
        → read t pb al io r ≡ ret x
        → x.0 ≢ error
        → Reached x.1

  -- For libraries with the properties in `IsTinyframe` and `IsProtobuf`, every reader that is
  -- reached from `dnswire_reader_init` by calls of push, read, allow_bidirectional, set_bufsize,
  -- set_bufinc and set_bufmax, in any order and however the input is cut, is well formed; the
  -- calls keep to the conditions of the theorems about them, `max + inc` stays below 2^64, and
  -- after `dnswire_error` from init, push or read the reader is not used again.
  pub Reached-IsReader : IsTinyframe t → IsProtobuf pb → (r : Reader t) → Reached r → IsReader t r
  Reached-IsReader tl pl _ (started al laws h) = elim (init_lem t al laws pb) [
    | inl e ↦ cc
    | inr e ↦ e.1
  ]
  Reached-IsReader tl pl _ (allowed al b {r} laws q) =
      (set_allow_bidirectional_lem t al laws r b (Reached-IsReader tl pl r q)).0
  Reached-IsReader tl pl _ (resized al n {r} {x} laws q p e) =
      (subst
        (Ensures (λ y.
          IsReader t y.1
          × (unread y.1.input ≡ unread r.input)
          × (y.0 ≡ ok → (y.1.input.size ≡ n) × (r.input.left ≤ n))))
        e (set_bufsize_lem t al laws r n (Reached-IsReader tl pl r q) p)).0
  Reached-IsReader tl pl _ (increased n {r} {x} q p h e) =
      (subst (Ensures (λ y. IsReader t y.1 × (y.0 ≡ ok))) e
        (set_bufinc-IsReader t r n (Reached-IsReader tl pl r q) p h)).0
  Reached-IsReader tl pl _ (limited n {r} {x} q p h e) =
      (subst (Ensures (λ y. IsReader t y.1 × (y.0 ≡ ok → r.input.size ≤ n))) e
        (set_bufmax-IsReader t r n (Reached-IsReader tl pl r q) p h)).0
  Reached-IsReader tl pl _ (pushed al src od ol {r} {x} laws q h g e n) =
      (subst (Ensures (Good t r src)) e
          (push_lem t pb al tl pl laws r src od ol (Reached-IsReader tl pl r q) h g)).valid
        n
  Reached-IsReader tl pl _ (was_read al io {r} {x} laws il q e n) =
      (subst (Ensures (Stepped t (unread r.input ++ received t io r) r.pushed)) e
          (read_lem t pb al tl pl laws io il r (Reached-IsReader tl pl r q))).valid
        n
