-- ===== src/Reader/Valid.antt =====
-- When a reader is well formed, between two calls.
use dnswire.Prelude.{ℕ, ◌<◌, ◌≡◌, ◌≢◌, ◌⊎◌, refl, inl, arith, Bool, true, false, none, drop}
use dnswire.Exec.{Bytes}
use dnswire.Result.{error, again, need_more, have_dnstap}
use dnswire.Decoder.{decoded}
use dnswire.Buffer.Valid.{IsInput, IsOutput, IsPresent, unread}
use dnswire.Tinyframe.{Tinyframe}
use dnswire.Reader.{
  Reader, ReaderState, decoding_control, encoding_accept, writing_accept, decoding, encoding_finish,
  writing_finish, Reply,
}

-- The states that go on with the decoder, with the replies, and with writing out a reply.
abbrev pub decodes : ReaderState → Bool
decodes decoding_control = true
decodes decoding = true
decodes _ = false

abbrev pub replies : ReaderState → Bool
replies encoding_accept = true
replies writing_accept = true
replies encoding_finish = true
replies writing_finish = true
replies _ = false

abbrev pub writes : ReaderState → Bool
writes writing_accept = true
writes writing_finish = true
writes _ = false

module _ (t : Tinyframe) where
  -- What holds in every state.
  pub record IsOpen (r : Reader t) : Type 0 where
    pub input : IsInput r.input
    pub output : IsOutput r.output
    pub writable :
        (r.allow_bidirectional ≡ true) ⊎ (r.is_bidirectional ≡ true) → IsPresent r.output.buf
    pub no_dnstap : r.encoder.dnstap ≡ none

  -- There is data where the decoder is called next, a reply is written only in a session of both
  -- directions, and nothing waits to be written in the other states.
  pub record IsReader (r : Reader t) : Type 0 where
    pub basic : IsOpen r
    pub waiting : decodes r.state ≡ true → 0 < r.input.left
    pub replying : replies r.state ≡ true → r.is_bidirectional ≡ true
    pub quiet : writes r.state ≡ false → r.output.left ≡ 0

  -- How many bytes went from the front: those that the decoder reported, where it has decoded a
  -- message, or a part of the stream with more bytes behind it; and none where it needs more. In
  -- the other cases it is one of the two.
  pub record Dropped (x : Reply t) (k : ℕ) : Type 0 where
    pub message : x.0 ≡ have_dnstap → k ≡ decoded t x.1.decoder
    pub part : x.0 ≡ again → decodes x.1.state ≡ true → k ≡ decoded t x.1.decoder
    pub waits : x.0 ≡ need_more → k ≡ 0
    pub reported : (k ≡ 0) ⊎ (k ≡ decoded t x.1.decoder)

  pub none_dropped :
      (x : Reply t) → x.0 ≢ have_dnstap → (x.0 ≡ again → decodes x.1.state ≡ false) → Dropped x 0
  none_dropped x n d = record {
    message = λ h. absurd (n h);
    part = λ h e. absurd (ground (arith, d h));
    waits = λ h. refl;
    reported = inl refl;
  }

  -- After a step that began with the unread bytes `before`: the reader is well formed unless the
  -- result is an error, and what is unread is what was, less what was decoded from the front.
  pub record Stepped (before : Bytes) (pushed : ℕ) (x : Reply t) : Type 0 where
    pub valid : x.0 ≢ error → IsReader x.1
    pub same_pushed : x.1.pushed ≡ pushed
    pub queue : (k : ℕ) × (unread x.1.input ≡ drop k before) × Dropped x k
