-- ===== src/ClientReceiver/Turns.antt =====
-- A call of `dnswire_reader_push` in the loop of examples/client_receiver_uv.c.
use dnswire.Prelude.{
  ℕ, ◌+◌, ◌<◌, ◌≡◌, refl, sym, subst, ◌∙◌, true, false, Option, none, length, arith, ◌||◌, not,
}
use dnswire.Prelude.Size.{size_mod}
use dnswire.Exec.{Exec, ret, ◌>>=◌, Bytes, Ensures}
use dnswire.Exec.Rules.{Ensures->>=, Ensures-mono, Ensures-Both}
use dnswire.Alloc.{Allocator, IsAllocator}
use dnswire.Tinyframe.{Tinyframe, IsTinyframe}
use dnswire.Dnstap.{Protobuf, IsProtobuf}
use dnswire.Decoder.Progress.{Advances}
use dnswire.Encoder.Loop.{is_set}
use dnswire.Encoder.Loop.Ends.{is_set_of_IsPresent}
use dnswire.Reader.{
  Reader, ReaderState, reading_control, decoding_control, reading, decoding, done, Reply,
}
use dnswire.Reader.Decode.{decode_control, decode_data}
use dnswire.Reader.Push.{Pushed, has_more, fill_control, fill_data, push_in, push}
use dnswire.Reader.Valid.{decodes, replies, writes}
use dnswire.Reader.Feeding.{Good}
use dnswire.Reader.Safe.{push_lem}
use dnswire.ClientReceiver.Steps.{takes, Round, Goes, IsListening, Moves}
use dnswire.ClientReceiver.Rounds.{
  decode_control-Round, decode_data-Round, filled_control-Round, filled_data-Round,
}

module _ (t : Tinyframe) (pb : Protobuf) (al : Allocator) (tl : IsTinyframe t) (fw : Advances t)
    (pl : IsProtobuf pb) (laws : IsAllocator al) where
  -- What `dnswire_reader_push` leaves.
  pub record Advanced (r : Reader t) (src : Bytes) (x : Pushed t) : Type 0 where
    pub moved : Moves t (r.input.left + takes t r src) (x.result, x.reader)
    pub amount : Goes x.result → x.reader.pushed ≡ takes t r src

  advanced :
      (r q : Reader t) (src : Bytes) (od : Option Bytes) (ol : Option ℕ) (m : Exec (Reply t))
      → takes t q src ≡ takes t r src
      → q.input.left ≡ r.input.left
      → Ensures (Round t (q.input.left + takes t q src) (takes t q src)) m
      → Ensures
          (Advanced r src)
          (m >>= λ x. ret (record { result = x.0; reader = x.1; out_data = od; out_len = ol }))
  advanced r q src od ol m e l h =
      Ensures->>= (Round t (q.input.left + takes t q src) (takes t q src)) (Advanced r src) m _ h
        λ x w. record { moved = rw (← e, ← l) w.0; amount = λ _. w.1 ∙ e }

  not_taken :
      (r : Reader t) (src : Bytes) (m : Exec (Reply t))
      → decodes r.state ≡ true
      → Ensures (Round t r.input.left 0) m
      → Ensures (Round t (r.input.left + takes t r src) (takes t r src)) m
  not_taken r src m busy h =
      let e : takes t r src ≡ 0 = rw busy in
      let l : r.input.left ≡ r.input.left + takes t r src = omega arith in
      subst (λ n. Ensures (Round t n (takes t r src)) m) l
        (subst (λ n. Ensures (Round t r.input.left n) m) (sym e) h)

  push_in-Advanced :
      (s : ReaderState) (r : Reader t) (src : Bytes)
      → s ≡ r.state
      → IsListening t r
      → r.pushed ≡ 0
      → 0 < length src
      → length src < size_mod
      → Ensures (Advanced r src) (push_in t pb al s r src none none 0)
  unfolding push_in
  push_in-Advanced reading_control r src e v z p h =
      advanced r r src none none (fill_control t pb al r src) refl refl (
        filled_control-Round t pb al tl fw pl laws r src v (subst (λ s. decodes s ≡ false) e refl)
          (subst (λ s. writes s ≡ false) e refl) p h)
  push_in-Advanced reading r src e v z p h =
      advanced r r src none none (fill_data t pb al r src) refl refl (
        filled_data-Round t pb al tl fw pl laws r src v (subst (λ s. decodes s ≡ false) e refl)
          (subst (λ s. writes s ≡ false) e refl) p h)
  push_in-Advanced decoding_control r src e v z p h =
      let busy : decodes r.state ≡ true = subst (λ s. decodes s ≡ true) e refl in
      let more = has_more t pb al r (length src) in
      advanced r r src none none (decode_control t pb al more r) refl refl (
        not_taken r src (decode_control t pb al more r) busy (
          subst (λ n. Ensures (Round t r.input.left n) (decode_control t pb al more r)) z
            (decode_control-Round t pb al tl fw pl laws more r v.valid v.denied v.one_way busy)))
  push_in-Advanced decoding r src e v z p h =
      let busy : decodes r.state ≡ true = subst (λ s. decodes s ≡ true) e refl in
      let more = has_more t pb al r (length src) in
      advanced r r src none none (decode_data t pb al more r) refl refl (
        not_taken r src (decode_data t pb al more r) busy (
          subst (λ n. Ensures (Round t r.input.left n) (decode_data t pb al more r)) z
            (decode_data-Round t pb al tl fw pl laws more r v.valid v.denied v.one_way busy)))
  push_in-Advanced done r src e v z p h = record {
    moved = record {
      denied = v.denied;
      one_way = v.one_way;
      roomy = λ g. absurd g;
      lighter = λ g. absurd g;
    };
    amount = λ g. absurd g;
  }
  push_in-Advanced _ r src e v z p h =
      let both : r.is_bidirectional ≡ true =
        v.valid.replying (subst (λ s. replies s ≡ true) e refl) in
      cc (v.one_way)

  push-Advanced :
      (r : Reader t) (src : Bytes)
      → IsListening t r
      → 0 < length src
      → length src < size_mod
      → Ensures (Advanced r src) (push t pb al r src none none)
  unfolding push
  push-Advanced r src v p h =
      let b : is_set r.input.buf ≡ true =
        is_set_of_IsPresent r.input.buf v.valid.basic.input.present in
      let f : (not r.allow_bidirectional || false) ≡ true = ground (arith, v.denied) in
      rw (b, f)
        (Ensures-mono (Advanced (record r { pushed = 0 }) src) (Advanced r src) _
          (push_in-Advanced r.state (record r { pushed = 0 }) src refl
            (record {
              valid = ground (arith, v);
              denied = v.denied;
              one_way = v.one_way;
              roomy = v.roomy;
            })
            refl p h)
          λ x w. record { moved = w.moved; amount = w.amount })

  -- A round of the loop.
  pub record Turned (r : Reader t) (src : Bytes) (x : Pushed t) : Type 0 where
    pub good : Good t r src x
    pub advanced : Advanced r src x

  pub push-Turned :
      (r : Reader t) (src : Bytes)
      → IsListening t r
      → 0 < length src
      → length src < size_mod
      → Ensures (Turned r src) (push t pb al r src none none)
  push-Turned r src v p h =
      let one_way : (r.allow_bidirectional || r.is_bidirectional) ≡ false =
        ground (arith, v.denied, v.one_way) in
      Ensures-mono (λ x. Good t r src x × Advanced r src x) (Turned r src) _
        (Ensures-Both (Good t r src) (Advanced r src) (push t pb al r src none none)
          (push_lem t pb al tl pl laws r src none none v.valid h (λ e. absurd (cc)))
          (push-Advanced r src v p h))
        λ x w. record { good = w.0; advanced = w.1 }
