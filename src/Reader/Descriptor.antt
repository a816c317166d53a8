-- ===== src/Reader/Descriptor.antt =====
-- `dnswire_reader_read` of src/reader.c as a whole.
use mathlib.Core.List.{append-nil}
use dnswire.Prelude.{
  ◌≡◌, ◌≢◌, refl, sym, subst, ap, ◌∙◌, [], true, false, inl, inr, none, some, length, ◌++◌, ◌==◌,
  Bool-cases, Option-cases, if◌then◌else◌, arith, take_all,
}
use dnswire.Exec.{Exec, ret, ◌>>=◌, contents, Ensures}
use dnswire.Exec.Rules.{Ensures->>=, Ensures-mono}
use dnswire.Result.{Result, error, again, have_dnstap, endofdata}
use dnswire.Alloc.{Allocator, IsAllocator}
use dnswire.Io.{Io, IsIo}
use dnswire.Buffer.{free_space, copy_in}
use dnswire.Buffer.Valid.{IsPresent, unread, unsent}
use dnswire.Buffer.Fill.{CopiedIn, copy_in_lem}
use dnswire.Tinyframe.{Tinyframe, IsTinyframe}
use dnswire.Dnstap.{Protobuf, IsProtobuf}
use dnswire.Encoder.Loop.Ends.{is_set_of_IsPresent}
use dnswire.Reader.{
  Reader, ReaderState, reading_control, decoding_control, encoding_accept, writing_accept, reading,
  decoding, encoding_finish, writing_finish, done, Reply, reader_encoding,
}
use dnswire.Reader.Decode.{decode_control, decode_data}
use dnswire.Reader.Read.{read_control, read_data, write_fd, read_accept, read_finish, read_in, read}
use dnswire.Reader.Valid.{decodes, replies, writes, IsOpen, IsReader, Stepped}
use dnswire.Reader.Steps.{decode_control-Stepped, decode_data-Stepped}
use dnswire.Reader.Replies.{Replying, reader_encoding_lem}
use dnswire.Reader.Transfers.{
  reads, free_space_lem, received, WrittenOut, write_fd_lem, stepped, ended, loaded,
}

module _ (t : Tinyframe) (pb : Protobuf) (al : Allocator) (tl : IsTinyframe t) (pl : IsProtobuf pb)
    (laws : IsAllocator al) (io : Io) (il : IsIo io) where
  -- The cases that read, given the step that decodes.
  load_lem :
      (r : Reader t) (s : ReaderState) (f : Reader t → Exec (Reply t))
      → IsReader t r
      → writes r.state ≡ false
      → decodes s ≡ true
      → ((q : Reader t)
          → IsReader t q
          → decodes q.state ≡ true
          → Ensures (Stepped t (unread q.input) q.pushed) (f q))
      → Ensures
          (Stepped t (unread r.input ++ contents (io.read (free_space r.input))) r.pushed)
          (elim (io.read (free_space r.input)) [
            | none ↦ ret (error, r)
            | some bs ↦
                if length bs == 0
                then ret (error, r)
                else do b ← copy_in r.input (length bs) bs; f (record r { input = b; state = s })
          ])
  load_lem r s f v w d k = elim (Option-cases (io.read (free_space r.input))) [
    | inl e ↦ rw e (ended t r r refl refl)
    | inr (bs, e) ↦ elim (Bool-cases (length bs == 0)) [
      | inl z ↦
          rw (e, z)
            (subst (λ u. Stepped t (unread r.input ++ u) r.pushed (error, r))
              (take_all 0 bs (ground arith)) (ended t r r refl refl))
      | inr z ↦
          rw (e, z)
            (Ensures->>= (CopiedIn r.input (length bs) bs)
              (Stepped t (unread r.input ++ bs) r.pushed) (copy_in r.input (length bs) bs) _
              (copy_in_lem r.input (length bs) bs v.basic.input (omega arith) (
                omega (
                  arith,
                  il.read_fits (free_space r.input) e,
                  free_space_lem r.input v.basic.input,
                  v.basic.input.inside,
                )))
              λ b g.
                subst (λ u. Ensures (Stepped t u r.pushed) (f (record r { input = b; state = s })))
                  (g.queue ∙ ap (λ u. unread r.input ++ u) (take_all (length bs) bs (omega arith)))
                  (k (record r { input = b; state = s }) (loaded t r s bs b v w d (ground arith) g)
                    d))
    ]
  ]

  -- A call that only decodes reads nothing.
  not_read :
      (r : Reader t) (m : Exec (Reply t))
      → Ensures (Stepped t (unread r.input) r.pushed) m
      → Ensures (Stepped t (unread r.input ++ []) r.pushed) m
  not_read r m h =
      subst (λ u. Ensures (Stepped t u r.pushed) m) (sym (append-nil (unread r.input))) h

  sent :
      (next : ReaderState) (last : Result) (r q : Reader t)
      → q.input ≡ r.input
      → q.pushed ≡ r.pushed
      → IsOpen t q
      → IsPresent q.output.buf
      → q.is_bidirectional ≡ true
      → decodes q.state ≡ false
      → writes q.state ≡ true
      → decodes next ≡ false
      → replies next ≡ false
      → last ≢ have_dnstap
      → Ensures (Stepped t (unread r.input ++ []) r.pushed) (write_fd t pb al io next last q)
  sent next last r q e z v i bi d w dn rn nm =
      Ensures-mono (WrittenOut t next last q (io.write (unsent q.output)))
        (Stepped t (unread r.input ++ []) r.pushed) _
        (write_fd_lem t pb al io next last q il v i bi d w dn rn)
        λ x g. stepped t pb al next last r q (io.write (unsent q.output)) x e z nm dn d g

  read_accept_lem :
      (r : Reader t) (x : Reply t)
      → r.is_bidirectional ≡ true
      → Replying t pb al tl pl laws r x
      → Ensures (Stepped t (unread r.input ++ []) r.pushed) (read_accept t pb al io x.0 x.1)
  unfolding read_accept
  read_accept_lem r (again, q) bi g =
      sent reading_control again r (record q { state = writing_accept }) g.same_input g.same_pushed
        (ground (arith, g)) g.present (g.same_bidirectional ∙ bi) refl refl refl refl (λ h. cc)
  read_accept_lem r (_, q) bi g = ended t r q g.same_input g.same_pushed

  read_finish_lem :
      (r : Reader t) (x : Reply t)
      → r.is_bidirectional ≡ true
      → Replying t pb al tl pl laws r x
      → Ensures (Stepped t (unread r.input ++ []) r.pushed) (read_finish t pb al io x.0 x.1)
  unfolding read_finish
  read_finish_lem r (endofdata, q) bi g =
      sent done endofdata r (record q { state = writing_finish }) g.same_input g.same_pushed
        (ground (arith, g)) g.present (g.same_bidirectional ∙ bi) refl refl refl refl (λ h. cc)
  read_finish_lem r (_, q) bi g = ended t r q g.same_input g.same_pushed

  read_in_lem :
      (s : ReaderState) (r : Reader t)
      → s ≡ r.state
      → IsReader t r
      → Ensures
          (Stepped t
            (unread r.input ++ (if reads s then contents (io.read (free_space r.input)) else []))
            r.pushed)
          (read_in t pb al io s r)
  unfolding read_in read_control read_data
  read_in_lem reading_control r e v =
      load_lem r decoding_control (decode_control t pb al false) v
        (subst (λ s. writes s ≡ false) e refl) refl (decode_control-Stepped t pb al tl laws false)
  read_in_lem reading r e v =
      load_lem r decoding (decode_data t pb al false) v (subst (λ s. writes s ≡ false) e refl) refl
        (decode_data-Stepped t pb al tl laws false)
  read_in_lem decoding_control r e v =
      not_read r _
        (decode_control-Stepped t pb al tl laws false r v (subst (λ s. decodes s ≡ true) e refl))
  read_in_lem decoding r e v =
      not_read r _
        (decode_data-Stepped t pb al tl laws false r v (subst (λ s. decodes s ≡ true) e refl))
  read_in_lem done r e v = ended t r r refl refl
  read_in_lem writing_accept r e v =
      let bi : r.is_bidirectional ≡ true = v.replying (subst (λ s. replies s ≡ true) e refl) in
      sent reading_control again r r refl refl v.basic (v.basic.writable (inr bi)) bi
        (subst (λ s. decodes s ≡ false) e refl) (subst (λ s. writes s ≡ true) e refl) refl refl
        (λ h. cc)
  read_in_lem writing_finish r e v =
      let bi : r.is_bidirectional ≡ true = v.replying (subst (λ s. replies s ≡ true) e refl) in
      sent done endofdata r r refl refl v.basic (v.basic.writable (inr bi)) bi
        (subst (λ s. decodes s ≡ false) e refl) (subst (λ s. writes s ≡ true) e refl) refl refl
        (λ h. cc)
  read_in_lem encoding_accept r e v =
      let bi : r.is_bidirectional ≡ true = v.replying (subst (λ s. replies s ≡ true) e refl) in
      Ensures->>= (Replying t pb al tl pl laws r) (Stepped t (unread r.input ++ []) r.pushed)
        (reader_encoding t pb al r) _
        (reader_encoding_lem t pb al tl pl laws r v.basic bi
          (v.quiet (subst (λ s. writes s ≡ false) e refl)))
        λ x w. read_accept_lem r x bi w
  read_in_lem encoding_finish r e v =
      let bi : r.is_bidirectional ≡ true = v.replying (subst (λ s. replies s ≡ true) e refl) in
      Ensures->>= (Replying t pb al tl pl laws r) (Stepped t (unread r.input ++ []) r.pushed)
        (reader_encoding t pb al r) _
        (reader_encoding_lem t pb al tl pl laws r v.basic bi
          (v.quiet (subst (λ s. writes s ≡ false) e refl)))
        λ x w. read_finish_lem r x bi w

  -- For a well-formed reader, a descriptor that gives and takes no more than it is asked to, and
  -- libraries with the properties in `IsTinyframe`, `IsProtobuf` and `IsAllocator`,
  -- `dnswire_reader_read` returns, without a fault. The unread bytes are the old ones followed by
  -- all that the descriptor gave, less `k` from the front, where `k` is what the decoder reported
  -- as decoded if the result is `dnswire_have_dnstap`, or `dnswire_again` in a state that goes on
  -- decoding; 0 if it is `dnswire_need_more`; and one of the two else. Unless the result is
  -- `dnswire_error`, the reader is well formed again.
  pub read_lem :
      (r : Reader t)
      → IsReader t r
      → Ensures (Stepped t (unread r.input ++ received t io r) r.pushed) (read t pb al io r)
  unfolding read
  read_lem r v =
      rw (is_set_of_IsPresent r.input.buf v.basic.input.present) (read_in_lem r.state r refl v)
