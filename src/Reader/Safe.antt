-- ===== src/Reader/Safe.antt =====
-- `dnswire_reader_push` of src/reader.c as a whole.
use mathlib.Core.List.{append-nil}
use dnswire.Prelude.{
  ℕ, ◌≤◌, ◌<◌, ◌≡◌, ◌≢◌, refl, sym, subst, ◌∙◌, [], Bool, true, false, leb, not, ◌||◌, inl, inr,
  Option, none, some, length, ◌++◌, Bool-cases, arith,
}
use dnswire.Prelude.Size.{size_mod}
use dnswire.Exec.{Exec, ret, ◌>>=◌, Bytes, Ensures}
use dnswire.Exec.Rules.{Ensures->>=, Ensures-mono}
use dnswire.Result.{Result, error, again, have_dnstap, endofdata}
use dnswire.Alloc.{Allocator, IsAllocator}
use dnswire.Buffer.Valid.{unread}
use dnswire.Tinyframe.{Tinyframe, IsTinyframe}
use dnswire.Dnstap.{Protobuf, IsProtobuf}
use dnswire.Encoder.Loop.{is_set}
use dnswire.Encoder.Loop.Ends.{is_set_of_IsPresent}
use dnswire.Reader.{
  Reader, ReaderState, reading_control, decoding_control, encoding_accept, writing_accept, reading,
  decoding, encoding_finish, writing_finish, done, Reply, reader_encoding,
}
use dnswire.Reader.Push.{Pushed, some_len, on_accept, on_finish, push_in, orig_len, clear_len, push}
use dnswire.Reader.Valid.{decodes, replies, writes, IsReader, Stepped}
use dnswire.Reader.Steps.{decode_control-Stepped, decode_data-Stepped}
use dnswire.Reader.Replies.{OutOk, Replied, write_out_lem, Replying, reader_encoding_lem}
use dnswire.Reader.Feeding.{Taken, Good, of_Stepped, untouched, fill_control_lem, fill_data_lem}

OutOk-cases :
    (od : Option Bytes) (ol : Option ℕ)
    → OutOk od ol
    → (p : Bytes) × (n : ℕ) × (od ≡ some p) × (ol ≡ some n) × (n ≤ length p)
OutOk-cases (some p) (some n) h = (p, n, refl, refl, h)
OutOk-cases (some p) none h = absurd h
OutOk-cases none ol h = absurd h

or_true : (b : Bool) → (b || true) ≡ true
or_true true = refl
or_true false = refl

module _ (t : Tinyframe) (pb : Protobuf) (al : Allocator) (tl : IsTinyframe t) (pl : IsProtobuf pb)
    (laws : IsAllocator al) where
  -- A call that only decodes takes no byte of `src`.
  not_fed :
      (r : Reader t) (src : Bytes) (m : Exec (Reply t))
      → r.pushed ≡ 0
      → Ensures (Stepped t (unread r.input) r.pushed) m
      → Ensures (λ x. Taken t r src x.0 x.1) m
  not_fed r src m z h =
      Ensures-mono (Stepped t (unread r.input) r.pushed) (λ x. Taken t r src x.0 x.1) m h
        λ x s. of_Stepped t r src 0 x (omega arith) (
          subst (λ n. Stepped t (unread r.input ++ []) n x) z
            (subst (λ b. Stepped t b r.pushed x) (sym (append-nil (unread r.input))) s))

  replied :
      (next : ReaderState) (last : Result) (r q : Reader t) (src : Bytes) (room : ℕ) (x : Pushed t)
      → q.input ≡ r.input
      → q.pushed ≡ 0
      → last ≢ have_dnstap
      → decodes next ≡ false
      → decodes q.state ≡ false
      → Replied t next last q room x
      → Good t r src x
  replied next last r q src room x e z n dn d w =
      untouched t r x.reader src x.result (λ n. w.valid) (w.sent.same_input ∙ e)
        (w.sent.same_pushed ∙ z)
        (elim (Bool-cases (leb q.output.left room)) [
          | inl c ↦ λ h. n (sym (w.sent.finished (ground arith)).0 ∙ h)
          | inr c ↦ λ h. cc ((w.sent.unfinished (ground arith)).0, h)
        ])
        (λ h. elim (Bool-cases (leb q.output.left room)) [
          | inl c ↦ rw ((w.sent.finished (ground arith)).1) dn
          | inr c ↦ rw ((w.sent.unfinished (ground arith)).1) d
        ])

  broken :
      (r q : Reader t) (src : Bytes) (x : Result)
      → Replying t pb al tl pl laws r (x, q)
      → r.pushed ≡ 0
      → Taken t r src error q
  broken r q src x g z =
      untouched t r q src error (λ n. absurd (n refl)) g.same_input (g.same_pushed ∙ z) (λ h. cc)
        (λ h. cc)

  on_accept_lem :
      (r : Reader t) (src p : Bytes) (ol : Option ℕ) (room : ℕ) (x : Reply t)
      → r.is_bidirectional ≡ true
      → r.pushed ≡ 0
      → some_len ol ≡ true
      → room ≤ length p
      → Replying t pb al tl pl laws r x
      → Ensures (Good t r src) (on_accept t pb al x.0 x.1 (some p) ol room)
  unfolding on_accept
  on_accept_lem r src p ol room (again, q) bi z so h g =
      Ensures-mono (Replied t reading_control again (record q { state = writing_accept }) room)
        (Good t r src) _
        (write_out_lem t pb al reading_control again (record q { state = writing_accept }) p ol room
          (ground (arith, g)) g.present (g.same_bidirectional ∙ bi) refl refl refl refl so h)
        λ x w.
          replied reading_control again r (record q { state = writing_accept }) src room x
            g.same_input (g.same_pushed ∙ z) (λ h. cc) refl refl w
  on_accept_lem r src p ol room (_, q) bi z so h g = broken r q src _ g z

  on_finish_lem :
      (r : Reader t) (src p : Bytes) (ol : Option ℕ) (room : ℕ) (x : Reply t)
      → r.is_bidirectional ≡ true
      → r.pushed ≡ 0
      → some_len ol ≡ true
      → room ≤ length p
      → Replying t pb al tl pl laws r x
      → Ensures (Good t r src) (on_finish t pb al x.0 x.1 (some p) ol room)
  unfolding on_finish
  on_finish_lem r src p ol room (endofdata, q) bi z so h g =
      Ensures-mono (Replied t done endofdata (record q { state = writing_finish }) room)
        (Good t r src) _
        (write_out_lem t pb al done endofdata (record q { state = writing_finish }) p ol room
          (ground (arith, g)) g.present (g.same_bidirectional ∙ bi) refl refl refl refl so h)
        λ x w.
          replied done endofdata r (record q { state = writing_finish }) src room x g.same_input
            (g.same_pushed ∙ z) (λ h. cc) refl refl w
  on_finish_lem r src p ol room (_, q) bi z so h g = broken r q src _ g z

  -- The caller's array, where a reply may have to be written.
  abbrev Given : Reader t → Option Bytes → Option ℕ → ℕ → Type 0
  Given r od ol room =
      r.is_bidirectional ≡ true
      → (p : Bytes) × (od ≡ some p) × (some_len ol ≡ true) × (room ≤ length p)

  silent :
      (r : Reader t) (src : Bytes) (od : Option Bytes) (ol : Option ℕ) (m : Exec (Reply t))
      → Ensures (λ x. Taken t r src x.0 x.1) m
      → Ensures
          (Good t r src)
          (m >>= λ x. ret (record { result = x.0; reader = x.1; out_data = od; out_len = ol }))
  silent r src od ol m h = Ensures->>= (λ x. Taken t r src x.0 x.1) (Good t r src) m _ h (λ x w. w)

  push_in_lem :
      (s : ReaderState) (r : Reader t) (src : Bytes) (od : Option Bytes) (ol : Option ℕ) (room : ℕ)
      → s ≡ r.state
      → IsReader t r
      → r.pushed ≡ 0
      → length src < size_mod
      → Given r od ol room
      → Ensures (Good t r src) (push_in t pb al s r src od ol room)
  unfolding push_in
  push_in_lem reading_control r src od ol room e v z h g =
      silent r src od ol _
        (fill_control_lem t pb al tl pl laws r src v (subst (λ s. writes s ≡ false) e refl) z h)
  push_in_lem decoding_control r src od ol room e v z h g = silent r src od ol _ (
      not_fed r src _ z
        (decode_control-Stepped t pb al tl laws _ r v (subst (λ s. decodes s ≡ true) e refl)))
  push_in_lem reading r src od ol room e v z h g =
      silent r src od ol _
        (fill_data_lem t pb al tl pl laws r src v (subst (λ s. writes s ≡ false) e refl) z h)
  push_in_lem decoding r src od ol room e v z h g = silent r src od ol _ (
      not_fed r src _ z
        (decode_data-Stepped t pb al tl laws _ r v (subst (λ s. decodes s ≡ true) e refl)))
  push_in_lem done r src od ol room e v z h g =
      untouched t r r src error (λ n. v) refl z (λ h. cc) (λ h. cc)
  push_in_lem writing_accept r src od ol room e v z h g =
      let bi : r.is_bidirectional ≡ true = v.replying (subst (λ s. replies s ≡ true) e refl) in
      let (p, ep, so, k) = g bi in
      rw ep (
        Ensures-mono (Replied t reading_control again r room) (Good t r src) _
          (write_out_lem t pb al reading_control again r p ol room v.basic
            (v.basic.writable (inr bi)) bi (subst (λ s. decodes s ≡ false) e refl)
            (subst (λ s. writes s ≡ true) e refl) refl refl so k)
          λ x w.
            replied reading_control again r r src room x refl z (λ h. cc) refl
              (subst (λ s. decodes s ≡ false) e refl) w)
  push_in_lem writing_finish r src od ol room e v z h g =
      let bi : r.is_bidirectional ≡ true = v.replying (subst (λ s. replies s ≡ true) e refl) in
      let (p, ep, so, k) = g bi in
      rw ep (
        Ensures-mono (Replied t done endofdata r room) (Good t r src) _
          (write_out_lem t pb al done endofdata r p ol room v.basic (v.basic.writable (inr bi)) bi
            (subst (λ s. decodes s ≡ false) e refl) (subst (λ s. writes s ≡ true) e refl) refl refl
            so k)
          λ x w.
            replied done endofdata r r src room x refl z (λ h. cc) refl
              (subst (λ s. decodes s ≡ false) e refl) w)
  push_in_lem encoding_accept r src od ol room e v z h g =
      let bi : r.is_bidirectional ≡ true = v.replying (subst (λ s. replies s ≡ true) e refl) in
      let (p, ep, so, k) = g bi in
      rw ep (
        Ensures->>= (Replying t pb al tl pl laws r) (Good t r src) (reader_encoding t pb al r) _
          (reader_encoding_lem t pb al tl pl laws r v.basic bi
            (v.quiet (subst (λ s. writes s ≡ false) e refl)))
          λ x w. on_accept_lem r src p ol room x bi z so k w)
  push_in_lem encoding_finish r src od ol room e v z h g =
      let bi : r.is_bidirectional ≡ true = v.replying (subst (λ s. replies s ≡ true) e refl) in
      let (p, ep, so, k) = g bi in
      rw ep (
        Ensures->>= (Replying t pb al tl pl laws r) (Good t r src) (reader_encoding t pb al r) _
          (reader_encoding_lem t pb al tl pl laws r v.basic bi
            (v.quiet (subst (λ s. writes s ≡ false) e refl)))
          λ x w. on_finish_lem r src p ol room x bi z so k w)

  -- For a well-formed reader, fewer than 2^64 bytes, libraries with the properties in
  -- `IsTinyframe`, `IsProtobuf` and `IsAllocator`, and, where a reply may have to be written, an
  -- `out_data` with room for `*out_len` bytes, `dnswire_reader_push` returns: no assertion fails,
  -- no access is out of bounds, no loop runs on. It reports how many bytes of the data it took,
  -- and the unread bytes are the old ones followed by these, less `k` from the front, where `k` is
  -- what the decoder reported as decoded if the result is `dnswire_have_dnstap`, or
  -- `dnswire_again` in a state that goes on decoding; 0 if it is `dnswire_need_more`; and one of
  -- the two else. Unless the result is `dnswire_error`, the reader is well formed again.
  pub push_lem :
      (r : Reader t) (src : Bytes) (od : Option Bytes) (ol : Option ℕ)
      → IsReader t r
      → length src < size_mod
      → ((r.allow_bidirectional || r.is_bidirectional) ≡ true → OutOk od ol)
      → Ensures (Good t r src) (push t pb al r src od ol)
  unfolding push
  push_lem r src od ol v h g =
      rw (is_set_of_IsPresent r.input.buf v.basic.input.present, arrays, lengths)
        (Ensures-mono (Good t (record r { pushed = 0 }) src) (Good t r src) _
          (push_in_lem r.state (record r { pushed = 0 }) src od (clear_len ol) (orig_len ol) refl
            (ground (arith, v)) refl h room)
          λ x w. record { valid = w.valid; taken = w.taken; queue = w.queue })
    where
      arrays : (not r.allow_bidirectional || is_set od) ≡ true
      arrays = elim (Bool-cases r.allow_bidirectional) [
        | inl e ↦ let (p, n, ep, eo, k) = OutOk-cases od ol (g (rw e)) in rw (e, ep)
        | inr e ↦ rw e
      ]

      lengths : (not r.allow_bidirectional || some_len ol) ≡ true
      lengths = elim (Bool-cases r.allow_bidirectional) [
        | inl e ↦ let (p, n, ep, eo, k) = OutOk-cases od ol (g (rw e)) in rw (e, eo)
        | inr e ↦ rw e
      ]

      room : Given (record r { pushed = 0 }) od (clear_len ol) (orig_len ol)
      room bi =
          let (p, n, ep, eo, k) = OutOk-cases od ol (g (rw bi (or_true r.allow_bidirectional))) in
          (p, ep, rw eo, rw eo k)
