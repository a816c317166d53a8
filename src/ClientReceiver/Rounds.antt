-- ===== src/ClientReceiver/Rounds.antt =====
-- A round of the loop of examples/client_receiver_uv.c.
use dnswire.Prelude.{
  ℕ, ◌+◌, ◌≤◌, ◌<◌, ◌≡◌, refl, sym, subst, Bool, true, false, length, arith, ◌==◌,
}
use dnswire.Prelude.Size.{size_mod}
use dnswire.Exec.{Exec, Bytes, Ensures}
use dnswire.Exec.Rules.{Ensures->>=, Ensures-mono, Ensures-Allows, Ensures-Both}
use dnswire.Alloc.{Allocator, IsAllocator}
use dnswire.Buffer.{Buffer, fill}
use dnswire.Buffer.Fill.{Filled, fill_lem, window_lem, length-unread}
use dnswire.Buffer.Valid.{unread}
use dnswire.Tinyframe.{Tinyframe, IsTinyframe}
use dnswire.Dnstap.{Protobuf, IsProtobuf}
use dnswire.Decoder.{decoded, decode}
use dnswire.Decoder.Contract.{consumes, Decoded, decode_contract}
use dnswire.Decoder.Progress.{Advances, Forward, decode-Forward}
use dnswire.Reader.{Reader, decoding_control, decoding, Reply}
use dnswire.Reader.Decode.{on_control, on_data, decode_input, decode_control, decode_data}
use dnswire.Reader.Push.{has_more, fill_control, fill_data}
use dnswire.Reader.Valid.{decodes, writes, IsReader, Stepped}
use dnswire.Reader.Steps.{decode_control-Stepped, decode_data-Stepped}
use dnswire.Reader.Feeding.{filled}
use dnswire.ClientReceiver.Steps.{takes, Round, IsListening, Moves, on_control-Moves, on_data-Moves}

module _ (t : Tinyframe) (pb : Protobuf) (al : Allocator) (tl : IsTinyframe t) (fw : Advances t)
    (pl : IsProtobuf pb) (laws : IsAllocator al) where
  -- What the decoder's answer leaves of a reader.
  record Answer (r : Reader t) (x : Reply t) : Type 0 where
    same : x.1 ≡ record r { decoder = x.1.decoder }
    some_byte : consumes x.0 ≡ true → 0 < decoded t x.1.decoder
    within : consumes x.0 ≡ true → decoded t x.1.decoder ≤ r.input.left

  decode_input-Answer :
      (r : Reader t)
      → IsReader t r
      → decodes r.state ≡ true
      → Ensures (Answer r) (decode_input t pb al r)
  unfolding decode_input
  decode_input-Answer r v busy =
      let n : length (unread r.input) ≡ r.input.left = length-unread r.input v.basic.input in
      let some_left : 0 < length (unread r.input) = omega (arith, v.waiting busy) in
      rw (window_lem r.input v.basic.input) (
        Ensures->>= (λ x. Decoded t (length (unread r.input)) x × Forward t pb x) (Answer r)
          (decode t pb r.decoder (unread r.input)) _
          (Ensures-Allows (Decoded t (length (unread r.input))) (Forward t pb) _
            (decode_contract t pb r.decoder (unread r.input) tl some_left)
            (decode-Forward t pb r.decoder (unread r.input) fw some_left))
          λ x d. record { same = refl; some_byte = d.1; within = λ c. omega (arith, d.0.within c) })

  pub decode_control-Moves :
      (more : Bool) (r : Reader t)
      → IsReader t r
      → r.allow_bidirectional ≡ false
      → r.is_bidirectional ≡ false
      → decodes r.state ≡ true
      → Ensures (Moves t r.input.left) (decode_control t pb al more r)
  unfolding decode_control
  decode_control-Moves more r v deny one busy =
      Ensures->>= (Answer r) (Moves t r.input.left) (decode_input t pb al r) _
        (decode_input-Answer r v busy)
        λ x a.
          subst (λ q. Ensures (Moves t r.input.left) (on_control t al more x.0 q)) (sym a.same)
            (on_control-Moves t (record r { decoder = x.1.decoder }) (ground (arith, v)) deny one
              busy al more x.0 laws a.some_byte a.within)

  pub decode_data-Moves :
      (more : Bool) (r : Reader t)
      → IsReader t r
      → r.allow_bidirectional ≡ false
      → r.is_bidirectional ≡ false
      → decodes r.state ≡ true
      → Ensures (Moves t r.input.left) (decode_data t pb al more r)
  unfolding decode_data
  decode_data-Moves more r v deny one busy =
      Ensures->>= (Answer r) (Moves t r.input.left) (decode_input t pb al r) _
        (decode_input-Answer r v busy)
        λ x a.
          subst (λ q. Ensures (Moves t r.input.left) (on_data t al more x.0 q)) (sym a.same)
            (on_data-Moves t (record r { decoder = x.1.decoder }) (ground (arith, v)) deny one busy
              al more x.0 laws a.some_byte a.within)

  with_pushed :
      (r : Reader t) (m : Exec (Reply t))
      → Ensures (Stepped t (unread r.input) r.pushed) m
      → Ensures (Moves t r.input.left) m
      → Ensures (Round t r.input.left r.pushed) m
  with_pushed r m h k =
      Ensures-mono (λ x. Stepped t (unread r.input) r.pushed x × Moves t r.input.left x)
        (Round t r.input.left r.pushed) m
        (Ensures-Both (Stepped t (unread r.input) r.pushed) (Moves t r.input.left) m h k)
        λ x z. (z.1, z.0.same_pushed)

  pub decode_control-Round :
      (more : Bool) (r : Reader t)
      → IsReader t r
      → r.allow_bidirectional ≡ false
      → r.is_bidirectional ≡ false
      → decodes r.state ≡ true
      → Ensures (Round t r.input.left r.pushed) (decode_control t pb al more r)
  decode_control-Round more r v deny one busy =
      with_pushed r (decode_control t pb al more r)
        (decode_control-Stepped t pb al tl laws more r v busy)
        (decode_control-Moves more r v deny one busy)

  pub decode_data-Round :
      (more : Bool) (r : Reader t)
      → IsReader t r
      → r.allow_bidirectional ≡ false
      → r.is_bidirectional ≡ false
      → decodes r.state ≡ true
      → Ensures (Round t r.input.left r.pushed) (decode_data t pb al more r)
  decode_data-Round more r v deny one busy =
      with_pushed r (decode_data t pb al more r) (decode_data-Stepped t pb al tl laws more r v busy)
        (decode_data-Moves more r v deny one busy)

  refilled :
      (r : Reader t) (src : Bytes) (f : ℕ × Buffer) (m : Exec (Reply t))
      → decodes r.state ≡ false
      → Filled r.input src f
      → Ensures (Round t f.1.left f.0) m
      → Ensures (Round t (r.input.left + takes t r src) (takes t r src)) m
  refilled r src f m idle g h =
      let e : f.0 ≡ takes t r src = rw idle (g.count) in
      let l : f.1.left ≡ r.input.left + takes t r src = omega (arith, g.amount) in
      subst (λ n. Ensures (Round t n (takes t r src)) m) l
        (subst (λ n. Ensures (Round t f.1.left n) m) e h)

  pub filled_control-Round :
      (r : Reader t) (src : Bytes)
      → IsListening t r
      → decodes r.state ≡ false
      → writes r.state ≡ false
      → 0 < length src
      → length src < size_mod
      → Ensures
          (Round t (r.input.left + takes t r src) (takes t r src))
          (fill_control t pb al r src)
  unfolding fill_control
  filled_control-Round r src v idle w p h =
      let given : (length src == 0) ≡ false = ground arith in
      rw given (
        Ensures->>= (Filled r.input src) (Round t (r.input.left + takes t r src) (takes t r src))
          (fill r.input src) _ (fill_lem r.input src v.valid.basic.input h)
          λ f g.
            let q = record r { input = f.1; pushed = f.0; state = decoding_control } in
            let u = filled t pb al tl pl laws r src decoding_control f v.valid w refl p g in
            refilled r src f (decode_control t pb al (has_more t pb al q (length src)) q) idle g
              (decode_control-Round (has_more t pb al q (length src)) q u v.denied v.one_way refl))

  pub filled_data-Round :
      (r : Reader t) (src : Bytes)
      → IsListening t r
      → decodes r.state ≡ false
      → writes r.state ≡ false
      → 0 < length src
      → length src < size_mod
      → Ensures (Round t (r.input.left + takes t r src) (takes t r src)) (fill_data t pb al r src)
  unfolding fill_data
  filled_data-Round r src v idle w p h =
      let given : (length src == 0) ≡ false = ground arith in
      rw given (
        Ensures->>= (Filled r.input src) (Round t (r.input.left + takes t r src) (takes t r src))
          (fill r.input src) _ (fill_lem r.input src v.valid.basic.input h)
          λ f g.
            let q = record r { input = f.1; pushed = f.0; state = decoding } in
            let u = filled t pb al tl pl laws r src decoding f v.valid w refl p g in
            refilled r src f (decode_data t pb al (has_more t pb al q (length src)) q) idle g
              (decode_data-Round (has_more t pb al q (length src)) q u v.denied v.one_way refl))
