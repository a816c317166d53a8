-- ===== src/ClientReceiver/Steps.antt =====
-- A call of `dnswire_reader_push` in examples/client_receiver_uv.c goes forward: the reader is not
-- bidirectional, and has room whenever it is given data.
use dnswire.Prelude.{
  ℕ, ◌+◌, ◌*◌, ◌-◌, ◌≤◌, ◌<◌, ◌≡◌, refl, Bool, true, false, none, some, length, if◌then◌else◌,
  arith,
}
use Prim.Native.Nat.{min}
use dnswire.Exec.{Bytes, Ensures}
use dnswire.Exec.Rules.{Ensures->>=}
use dnswire.Result.{Result, ok, error, again, need_more, have_dnstap, endofdata, bidirectional}
use dnswire.Alloc.{Allocator, IsAllocator}
use dnswire.Buffer.{Buffer, consume, rewind, make_room}
use dnswire.Buffer.Fill.{Consumed, consume_lem}
use dnswire.Buffer.Room.{RoomyOr, Roomy, make_room_lem}
use dnswire.Tinyframe.{Tinyframe}
use dnswire.Decoder.{decoded}
use dnswire.Decoder.Contract.{consumes}
use dnswire.Reader.{Reader, ReaderState, reading_control, reading, Reply}
use dnswire.Reader.Decode.{
  past, on_bidirectional, on_need_more, on_first_dnstap, on_endofdata, on_control, on_data,
}
use dnswire.Reader.Valid.{decodes, IsReader}

-- The results after which the loop goes on.
abbrev pub Goes : Result → Type 0
Goes again = Unit
Goes need_more = Unit
Goes have_dnstap = Unit
Goes _ = ⊥

module _ (t : Tinyframe) where
  -- A reader between two rounds: one that decodes has data, and one that does not has room for more.
  pub record IsListening (r : Reader t) : Type 0 where
    pub valid : IsReader t r
    pub denied : r.allow_bidirectional ≡ false
    pub one_way : r.is_bidirectional ≡ false
    pub roomy : decodes r.state ≡ false → r.input.at + r.input.left < r.input.size

  -- How much is left to do with the bytes in the buffer.
  abbrev pub weight : Reader t → ℕ
  weight r = 2 * r.input.left + (if decodes r.state then 1 else 0)

  -- After a decoding step on a reader with `left` bytes.
  pub record Moves (left : ℕ) (x : Reply t) : Type 0 where
    pub denied : x.1.allow_bidirectional ≡ false
    pub one_way : x.1.is_bidirectional ≡ false
    pub roomy :
        Goes x.0 → decodes x.1.state ≡ false → x.1.input.at + x.1.input.left < x.1.input.size
    pub lighter : Goes x.0 → weight x.1 < 2 * left + 1

  -- A decoding step leaves `pushed` alone.
  abbrev pub Round : ℕ → ℕ → Reply t → Type 0
  Round left pushed x = Moves left x × (x.1.pushed ≡ pushed)

  -- How many bytes a call takes: none if the reader decodes what it has, and else what fits.
  abbrev pub takes : Reader t → Bytes → ℕ
  takes r src =
      if decodes r.state then 0 else min (r.input.size - r.input.at - r.input.left) (length src)

  module _ (r : Reader t) (v : IsReader t r) (no : r.allow_bidirectional ≡ false)
      (not_both : r.is_bidirectional ≡ false) (busy : decodes r.state ≡ true) where
    module _ (some_byte : 0 < decoded t r.decoder)
        (within : decoded t r.decoder ≤ r.input.left) where
      eaten :
          Consumed r.input (decoded t r.decoder) (rewind (consume r.input (decoded t r.decoder)))
      eaten = consume_lem r.input (decoded t r.decoder) v.basic.input within

      past-Moves :
          (idle : ReaderState) (x : Result)
          → decodes idle ≡ false
          → Moves r.input.left (x, past t idle r)
      unfolding past
      past-Moves idle x d = record {
        denied = ground arith;
        one_way = ground arith;
        roomy = ground (arith, eaten);
        lighter = ground (arith, eaten);
      }

      on_first_dnstap-Moves : Moves r.input.left (on_first_dnstap t r)
      unfolding on_first_dnstap
      on_first_dnstap-Moves = record {
        denied = ground arith;
        one_way = ground arith;
        roomy = ground (arith, eaten);
        lighter = ground (arith, eaten);
      }

      on_bidirectional-Moves : Moves r.input.left (on_bidirectional t r)
      unfolding on_bidirectional past
      on_bidirectional-Moves = record {
        denied = ground arith;
        one_way = ground arith;
        roomy = ground arith;
        lighter = ground arith;
      }

    Roomy-Moves :
        (idle : ReaderState) (x : Result) (b : Buffer)
        → decodes idle ≡ false
        → Roomy r.input b
        → Moves r.input.left (x, record r { input = b; state = idle })
    Roomy-Moves idle x b d w = record {
      denied = no;
      one_way = not_both;
      roomy = λ g e. w.room;
      lighter = λ g. rw d (omega (arith, w.amount));
    }

    failed-Moves : Moves r.input.left (error, r)
    failed-Moves = record {
      denied = no;
      one_way = not_both;
      roomy = λ g. absurd g;
      lighter = λ g. absurd g;
    }

    on_need_more-Moves :
        (al : Allocator) (idle : ReaderState) (more : Bool)
        → IsAllocator al
        → decodes idle ≡ false
        → Ensures (Moves r.input.left) (on_need_more t al idle more r)
    unfolding on_need_more
    on_need_more-Moves al idle more laws d =
        Ensures->>= (RoomyOr r.input) (Moves r.input.left) (make_room al r.input) _
          (make_room_lem al r.input laws v.basic.input)
          (elim [
            | none ↦ λ w. failed-Moves
            | some b ↦ λ w. Roomy-Moves idle (if more then again else need_more) b d w
          ])

    on_endofdata-Moves : Moves r.input.left (on_endofdata t r)
    unfolding on_endofdata
    on_endofdata-Moves = ground arith

    pub on_control-Moves :
        (al : Allocator) (more : Bool) (x : Result)
        → IsAllocator al
        → (consumes x ≡ true → 0 < decoded t r.decoder)
        → (consumes x ≡ true → decoded t r.decoder ≤ r.input.left)
        → Ensures (Moves r.input.left) (on_control t al more x r)
    unfolding on_control
    on_control-Moves al more bidirectional laws g h = on_bidirectional-Moves (g refl) (h refl)
    on_control-Moves al more again laws g h =
        past-Moves (g refl) (h refl) reading_control again refl
    on_control-Moves al more need_more laws g h =
        on_need_more-Moves al reading_control more laws refl
    on_control-Moves al more have_dnstap laws g h = on_first_dnstap-Moves (g refl) (h refl)
    on_control-Moves al more endofdata laws g h = on_endofdata-Moves
    on_control-Moves al more ok laws g h = failed-Moves
    on_control-Moves al more error laws g h = failed-Moves

    pub on_data-Moves :
        (al : Allocator) (more : Bool) (x : Result)
        → IsAllocator al
        → (consumes x ≡ true → 0 < decoded t r.decoder)
        → (consumes x ≡ true → decoded t r.decoder ≤ r.input.left)
        → Ensures (Moves r.input.left) (on_data t al more x r)
    unfolding on_data
    on_data-Moves al more again laws g h = past-Moves (g refl) (h refl) reading again refl
    on_data-Moves al more need_more laws g h = on_need_more-Moves al reading more laws refl
    on_data-Moves al more have_dnstap laws g h =
        past-Moves (g refl) (h refl) reading have_dnstap refl
    on_data-Moves al more endofdata laws g h = on_endofdata-Moves
    on_data-Moves al more bidirectional laws g h = failed-Moves
    on_data-Moves al more ok laws g h = failed-Moves
    on_data-Moves al more error laws g h = failed-Moves
