-- ===== src/Decoder/Progress.antt =====
-- The decoder goes forward: where its caller goes on behind what was decoded, that is a byte at
-- least.
use dnswire.Prelude.{◌<◌, ◌≡◌, refl, true, false, length, ◌==◌, Bool-cases, inl, inr, arith}
use dnswire.Exec.{Bytes, Allows}
use dnswire.Exec.Rules.{later}
use dnswire.Tinyframe.{TinyframeResult, have_frame, Tinyframe, is_part}
use dnswire.Dnstap.{Protobuf, cleanup, decode_protobuf}
use dnswire.Decoder.{
  DecoderState, reading_frames, Decoder, Reply, decoded, on_reading_control, on_checking_ready,
  on_checking_accept, on_reading_start, on_checking_start, on_reading_frames, on_checking_finish,
  on_read, is_done, decode,
}
use dnswire.Decoder.Contract.{consumes}

-- A part of the data that tinyframe finds is not empty.
pub record Advances (t : Tinyframe) : Type 0 where
  pub part_lt :
      (r : t.Reader) (src : Bytes)
      → is_part (t.read r src).0 ≡ true
      → 0 < t.bytes_read (t.read r src).1

module _ (t : Tinyframe) (pb : Protobuf) where
  abbrev pub Forward : Reply t → Type 0
  Forward r = consumes r.0 ≡ true → 0 < decoded t r.1

  on_reading_frames-Forward :
      (d : Decoder t) (x : TinyframeResult)
      → (is_part x ≡ true → 0 < t.bytes_read d.reader)
      → Allows Forward (on_reading_frames t pb d x)
  unfolding on_reading_frames decoded
  on_reading_frames-Forward d have_frame h =
      later Forward (decode_protobuf pb (cleanup (d.dnstap)) (t.frame_data d.reader)) _
        λ r. ground (arith, h refl)
  on_reading_frames-Forward d _ h = ground arith

  on_read-Forward :
      (s : DecoderState) (d : Decoder t) (x : TinyframeResult)
      → (is_part x ≡ true → 0 < t.bytes_read d.reader)
      → Allows Forward (on_read t pb s d x)
  unfolding on_read decoded on_reading_control on_checking_ready on_checking_accept on_reading_start
      on_checking_start on_checking_finish
  on_read-Forward reading_frames d x h = on_reading_frames-Forward d x h
  on_read-Forward _ d x h = ground arith

  pub decode-Forward :
      (d : Decoder t) (src : Bytes)
      → Advances t
      → 0 < length src
      → Allows Forward (decode t pb d src)
  unfolding decode
  decode-Forward d src laws h =
      let given : (length src == 0) ≡ false = ground arith in
      elim (Bool-cases (is_done t d.state)) [
        | inl e ↦ rw (given, e) (ground arith)
        | inr e ↦
            rw (given, e)
              (on_read-Forward d.state (record d { reader = (t.read d.reader src).1 })
                (t.read d.reader src).0 (laws.part_lt d.reader src))
      ]
