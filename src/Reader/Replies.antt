-- ===== src/Reader/Replies.antt =====
-- Writing a reply out: `_encoding` and the cases `writing_accept` and `writing_finish` of
-- `dnswire_reader_push` in src/reader.c.
use dnswire.Prelude.{
  ℕ, ◌+◌, ◌≤◌, ◌<◌, ◌≡◌, refl, sym, subst, ap, ◌∙◌, true, false, inr, Option, none, some, length,
  drop, take, ◌++◌, ltb, if◌then◌else◌, arith, length-take, take-append,
}
use Prim.Native.Nat.{min}
use dnswire.Exec.{Bytes, contents, Ensures}
use dnswire.Exec.Rules.{Ensures->>=, store_lem}
use dnswire.Result.{Result, again}
use dnswire.Alloc.{Allocator, IsAllocator}
use dnswire.Buffer.{drain}
use dnswire.Buffer.Valid.{IsPresent, unsent}
use dnswire.Buffer.Drain.{head_lem, drain_lem, Drained, length-unsent}
use dnswire.Tinyframe.{Tinyframe, IsTinyframe}
use dnswire.Dnstap.{Protobuf, IsProtobuf}
use dnswire.Encoder.Contract.{IsLinked}
use dnswire.Encoder.Loop.{encoding}
use dnswire.Encoder.Loop.Ends.{Grown, encoding_lem}
use dnswire.Reader.{Reader, ReaderState, Reply, reader_encoding}
use dnswire.Reader.Push.{Pushed, some_len, write_out}
use dnswire.Reader.Valid.{decodes, replies, writes, IsOpen, IsReader}

-- The caller's `out_data` holds as many bytes as it says in `*out_len`.
abbrev pub OutOk : Option Bytes → Option ℕ → Type 0
OutOk (some p) (some n) = n ≤ length p
OutOk _ _ = ⊥

module _ (t : Tinyframe) where
  -- Up to `room` pending bytes of the reply are now in the caller's array, and `*out_len` says how
  -- many; the rest still waits, and the state and the result show whether there is a rest.
  pub record Sent (next : ReaderState) (last : Result) (r : Reader t) (room : ℕ) (x : Pushed t)
      : Type 0 where
    pub count : x.out_len ≡ some (min r.output.left room)
    pub bytes :
        take (min r.output.left room) (contents x.out_data)
        ≡ take (min r.output.left room) (unsent r.output)
    pub rest : unsent x.reader.output ≡ drop (min r.output.left room) (unsent r.output)
    pub finished : r.output.left ≤ room → (x.result ≡ last) × (x.reader.state ≡ next)
    pub unfinished : room < r.output.left → (x.result ≡ again) × (x.reader.state ≡ r.state)
    pub same_input : x.reader.input ≡ r.input
    pub same_pushed : x.reader.pushed ≡ r.pushed

  pub record Replied (next : ReaderState) (last : Result) (r : Reader t) (room : ℕ) (x : Pushed t)
      : Type 0 where
    pub valid : IsReader t x.reader
    pub sent : Sent next last r room x

-- How many bytes of a reply go out at once.
limit_lem : (a b : ℕ) → (if ltb a b then a else b) ≡ min a b
limit_lem a b = ground arith

module _ (t : Tinyframe) (pb : Protobuf) (al : Allocator) where
  -- For a reader with a well-formed reply buffer in a state that writes a reply, and a caller's
  -- array with room for `room` bytes, `write_out` returns: the first `min(left, room)` pending
  -- bytes are in the array and their number in `*out_len`, the rest still waits; the state goes on
  -- and the result is the last one exactly if nothing is left, and the reader is well formed.
  pub write_out_lem :
      (next : ReaderState) (last : Result) (r : Reader t) (p : Bytes) (ol : Option ℕ) (room : ℕ)
      → IsOpen t r
      → IsPresent r.output.buf
      → r.is_bidirectional ≡ true
      → decodes r.state ≡ false
      → writes r.state ≡ true
      → decodes next ≡ false
      → replies next ≡ false
      → some_len ol ≡ true
      → room ≤ length p
      → Ensures (Replied t next last r room) (write_out t pb al next last r (some p) ol room)
  unfolding write_out
  write_out_lem next last r p ol room v i bi d w dn rn so h =
      let n = min r.output.left room in
      let bs = take n (unsent r.output) in
      let lu : length (unsent r.output) ≡ r.output.left = length-unsent r.output v.output i in
      let lw : length bs ≡ n = omega (arith, length-take n (unsent r.output)) in
      let g : Drained r.output n (drain r.output n) =
        drain_lem r.output n v.output i (omega arith) in
      rw
        (
          so,
          limit_lem r.output.left room,
          head_lem r.output n v.output i (omega arith),
          store_lem p 0 bs (omega arith),
        )
        (record {
          valid = ground (arith, g);
          sent = record {
            count = refl;
            bytes =
                ap (λ k. take k (bs ++ drop (0 + length bs) p)) {x = n} {y = length bs} (sym lw)
                ∙ take-append bs (drop (0 + length bs) p);
            rest = ground (arith, g);
            finished = λ a. ground (arith, g);
            unfinished = λ a. ground (arith, g);
            same_input = ground arith;
            same_pushed = ground arith;
          };
        })

-- `_encoding` leaves a well-formed reader, with the reply behind the bytes that were waiting.
module _ (t : Tinyframe) (pb : Protobuf) (al : Allocator) (tl : IsTinyframe t) (pl : IsProtobuf pb)
    (laws : IsAllocator al) where
  pub record Replying (r : Reader t) (x : Reply t) : Type 0 where
    pub basic : IsOpen t x.1
    pub present : IsPresent x.1.output.buf
    pub same_state : x.1.state ≡ r.state
    pub same_input : x.1.input ≡ r.input
    pub same_pushed : x.1.pushed ≡ r.pushed
    pub same_bidirectional : x.1.is_bidirectional ≡ r.is_bidirectional
    pub grown : Grown t pb r.encoder none (unsent r.output) (x.0, x.1.encoder, x.1.output)

  pub reader_encoding_lem :
      (r : Reader t)
      → IsOpen t r
      → r.is_bidirectional ≡ true
      → r.output.left ≡ 0
      → Ensures (Replying r) (reader_encoding t pb al r)
  unfolding reader_encoding
  reader_encoding_lem r v bi z =
      Ensures->>= (Grown t pb r.encoder r.encoder.dnstap (unsent r.output)) (Replying r)
        (encoding t pb al r.encoder r.output) _
        (encoding_lem t pb al tl pl laws r.encoder r.output (subst IsLinked (sym v.no_dnstap) tt)
          v.output (v.writable (inr bi)) (omega arith))
        λ x g. record {
          basic = record {
            input = v.input;
            output = g.valid;
            writable = λ h. g.present;
            no_dnstap = g.same_dnstap ∙ v.no_dnstap;
          };
          present = g.present;
          same_state = refl;
          same_input = refl;
          same_pushed = refl;
          same_bidirectional = refl;
          grown = subst (λ d. Grown t pb r.encoder d (unsent r.output) x) v.no_dnstap g;
        }
