-- ===== src/Decoder/Contract.antt =====
-- What `dnswire_decoder_decode` promises its callers.
use dnswire.Prelude.{
  ℕ, ◌≤◌, ◌<◌, ◌≡◌, ◌≢◌, refl, Bool, true, false, length, ◌==◌, Bool-cases, inl, inr, arith,
}
use dnswire.Exec.{Bytes, Ensures}
use dnswire.Exec.Rules.{Ensures->>=, Ensures-mono}
use dnswire.Result.{Result, ok, again, have_dnstap, bidirectional}
use dnswire.Tinyframe.{TinyframeResult, have_frame, Tinyframe, IsTinyframe, is_part}
use dnswire.Dnstap.{Protobuf, cleanup, decode_protobuf}
use dnswire.Dnstap.Decoded.{CleanedAs, decode_protobuf-CleanedAs}
use dnswire.Decoder.{
  DecoderState, reading_frames, Decoder, Reply, decoded, on_reading_control, on_checking_ready,
  on_checking_accept, on_reading_start, on_checking_start, on_reading_frames, on_checking_finish,
  on_read, is_done, decode,
}

-- The results after which the caller goes on behind what was decoded.
abbrev pub consumes : Result → Bool
consumes again = true
consumes have_dnstap = true
consumes bidirectional = true
consumes _ = false

module _ (t : Tinyframe) where
  -- No more is consumed than was given, and `dnswire_ok` is never returned.
  pub record Decoded (len : ℕ) (r : Reply t) : Type 0 where
    pub within : consumes r.0 ≡ true → decoded t r.1 ≤ len
    pub own_result : r.0 ≢ ok

  module _ (pb : Protobuf) where
    on_reading_frames_lem :
        (d : Decoder t) (x : TinyframeResult) (len : ℕ)
        → (is_part x ≡ true → t.bytes_read d.reader ≤ len)
        → Ensures (Decoded len) (on_reading_frames t pb d x)
    unfolding on_reading_frames decoded cleanup
    on_reading_frames_lem d have_frame len h =
        Ensures->>= (λ r. Unit {0}) (Decoded len)
          (decode_protobuf pb (cleanup (d.dnstap)) (t.frame_data d.reader)) _
          (Ensures-mono (CleanedAs (pb.unpack (t.frame_data d.reader)) (cleanup (d.dnstap)))
            (λ r. Unit {0}) _
            (decode_protobuf-CleanedAs pb (cleanup (d.dnstap)) (t.frame_data d.reader) refl)
            (λ r w. tt))
          (λ r u. ground (arith, h refl))
    on_reading_frames_lem d _ len h = ground arith

    on_read_lem :
        (s : DecoderState) (d : Decoder t) (x : TinyframeResult) (len : ℕ)
        → (is_part x ≡ true → t.bytes_read d.reader ≤ len)
        → Ensures (Decoded len) (on_read t pb s d x)
    unfolding on_read decoded on_reading_control on_checking_ready on_checking_accept
        on_reading_start on_checking_start on_checking_finish
    on_read_lem reading_frames d x len h = on_reading_frames_lem d x len h
    on_read_lem _ d x len h = ground arith

    -- For a tinyframe that never reports more bytes read than it was given, a decoder that is
    -- given at least one byte returns, without a fault; it never returns `dnswire_ok`, and where
    -- the caller goes on behind what was decoded, that is no more than what was given.
    pub decode_contract :
        (d : Decoder t) (src : Bytes)
        → IsTinyframe t
        → 0 < length src
        → Ensures (Decoded (length src)) (decode t pb d src)
    unfolding decode
    decode_contract d src laws h =
        let given : (length src == 0) ≡ false = ground arith in
        elim (Bool-cases (is_done t d.state)) [
          | inl e ↦ rw (given, e) (ground arith)
          | inr e ↦
              rw (given, e)
                (on_read_lem d.state (record d { reader = (t.read d.reader src).1 })
                  (t.read d.reader src).0 (length src) (laws.read_within d.reader src))
        ]
