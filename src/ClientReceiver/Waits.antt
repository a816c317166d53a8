-- ===== src/ClientReceiver/Waits.antt =====
-- `client_read` of examples/client_receiver_uv.c decodes once, if the reader takes all the bytes.
use dnswire.Prelude.{
  ℕ, ◌+◌, ◌*◌, ◌-◌, ◌≤◌, ◌<◌, ◌≡◌, ◌∙◌, false, length, ltb, arith, Bool-cases, inl, inr, none, suc,
  zero,
}
use Prim.Native.Nat.{min}
use dnswire.Prelude.Size.{size_mod, add_size, add_size_exact}
use dnswire.Exec.{Exec, Ensures, Bytes}
use dnswire.Exec.Rules.{Ensures->>=, Ensures-mono}
use dnswire.Result.{Result, again, need_more, have_dnstap}
use dnswire.Alloc.{Allocator, IsAllocator}
use dnswire.Tinyframe.{Tinyframe, IsTinyframe}
use dnswire.Dnstap.{Protobuf, IsProtobuf}
use dnswire.Decoder.Progress.{Advances}
use dnswire.Reader.{Reader}
use dnswire.Reader.Valid.{decodes}
use dnswire.Reader.Push.{push}
use dnswire.ClientReceiver.{Fed, on_pushed, feed, rounds, client_read, got}
use dnswire.ClientReceiver.Steps.{Goes, takes, IsListening}
use dnswire.ClientReceiver.Turns.{Turned, push-Turned}

module _ (t : Tinyframe) where
  abbrev pub AtMost : ℕ → Fed t → Type 0
  AtMost n y = length y.printed ≤ n

  on_pushed-AtMost :
      (x : Result) (q : Reader t) (next : Exec (Fed t))
      → (Goes x → Ensures (AtMost 0) next)
      → Ensures (AtMost 1) (on_pushed t next x q)
  unfolding on_pushed
  on_pushed-AtMost have_dnstap q next h =
      Ensures->>= (AtMost 0) (AtMost 1) next _ (h tt) (λ y w. omega arith)
  on_pushed-AtMost again q next h =
      Ensures-mono (AtMost 0) (AtMost 1) next (h tt) (λ y w. omega arith)
  on_pushed-AtMost need_more q next h =
      Ensures-mono (AtMost 0) (AtMost 1) next (h tt) (λ y w. omega arith)
  on_pushed-AtMost _ q next h = omega arith

  module _ (pb : Protobuf) (al : Allocator) where
    -- With everything pushed there is no other round.
    feed-end :
        (fuel : ℕ) (bs : Bytes) (q : Reader t) (k : ℕ)
        → k ≡ length bs
        → Ensures (AtMost 0) (feed t pb al (suc fuel) bs q k)
    unfolding feed
    feed-end fuel bs q k e =
        let stop : ltb k (length bs) ≡ false = ground arith in rw stop (omega arith)

    feed-AtMost :
        (fuel : ℕ) (bs : Bytes) (r : Reader t)
        → IsTinyframe t
        → Advances t
        → IsProtobuf pb
        → IsAllocator al
        → IsListening t r
        → decodes r.state ≡ false
        → length bs < size_mod
        → length bs ≤ r.input.size - r.input.at - r.input.left
        → 0 < fuel
        → Ensures (AtMost 1) (feed t pb al (suc fuel) bs r 0)
    unfolding feed
    feed-AtMost zero bs r tl fw pl laws v idle h fits m = absurd (omega arith)
    feed-AtMost (suc fuel) bs r tl fw pl laws v idle h fits m =
        elim (Bool-cases (ltb 0 (length bs))) [
          | inr e ↦ rw e (omega arith)
          | inl e ↦ rw e (
              Ensures->>= (Turned t pb al tl fw pl laws r bs) (AtMost 1)
                (push t pb al r bs none none) _
                (push-Turned t pb al tl fw pl laws r bs v (ground arith) h)
                λ x w. on_pushed-AtMost x.result x.reader _ λ g.
                  let a : x.reader.pushed ≡ takes t r bs = w.advanced.amount g in
                  let b : takes t r bs
                      ≡ min (r.input.size - r.input.at - r.input.left) (length bs) =
                    rw idle in
                  feed-end fuel bs x.reader (add_size 0 x.reader.pushed)
                    (add_size_exact 0 x.reader.pushed (omega arith) ∙ omega arith))
        ]

    -- For libraries with the properties in `IsTinyframe`, `IsProtobuf` and `IsAllocator`, a
    -- tinyframe whose parts are not empty, and a well-formed reader of one direction that is not
    -- decoding: if the bytes given fit into the free space of its buffer, `client_read` returns
    -- and has printed at most one message, however many the bytes hold.
    pub client_read-AtMost :
        (bs : Bytes) (r : Reader t)
        → IsTinyframe t
        → Advances t
        → IsProtobuf pb
        → IsAllocator al
        → IsListening t r
        → decodes r.state ≡ false
        → length bs < size_mod
        → length bs ≤ r.input.size - r.input.at - r.input.left
        → Ensures (AtMost 1) (client_read t pb al (got bs) r)
    unfolding client_read rounds
    client_read-AtMost bs r tl fw pl laws v idle h fits =
        feed-AtMost (3 * length bs + (2 * r.input.left + 1)) bs r tl fw pl laws v idle h fits
          (omega arith)
