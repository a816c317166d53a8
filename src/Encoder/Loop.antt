-- ===== src/Encoder/Loop.antt =====
-- `_encoding` of src/reader.c and of src/writer.c: call the encoder until it has room enough,
-- growing the buffer in between.
pub mod Ends
pub mod Stop
pub mod Order
use dnswire.Prelude.{ℕ, zero, suc, ◌-◌, Bool, true, false, Option, none, some, leb, if◌then◌else◌}
use dnswire.Prelude.Size.{sub_size}
use dnswire.Exec.{Exec, ret, fault, no_fuel, ◌>>=◌, ◌>>◌, assert, Bytes}
use dnswire.Result.{Result, ok, error, again, need_more, endofdata}
use dnswire.Alloc.{Allocator}
use dnswire.Buffer.{Buffer, grown, resize, scribble, advance}
use dnswire.Tinyframe.{Tinyframe}
use dnswire.Dnstap.{Protobuf}
use dnswire.Encoder.{Encoder, encoded, encode}

abbrev pub is_set : Option Bytes → Bool
is_set none = false
is_set (some p) = true

module _ (t : Tinyframe) (pb : Protobuf) (al : Allocator) where
  abbrev pub Reply : Type 0
  Reply = Result × Encoder t × Buffer

  -- The `switch` on what the encoder returned; `retry` is the next round of the loop.
  unfoldable pub on_encoded :
      (Encoder t → Buffer → Exec Reply) → Result → Encoder t → Buffer → Exec Reply
  on_encoded retry ok e b = ret (ok, e, advance b (encoded t e))
  on_encoded retry again e b = ret (again, e, advance b (encoded t e))
  on_encoded retry endofdata e b = ret (endofdata, e, advance b (encoded t e))
  on_encoded retry need_more e b =
      if leb b.max b.size
      then ret (error, e, b)
      else elim (resize al b (grown b)) [ none ↦ ret (error, e, b) | some c ↦ retry e c ]
  on_encoded retry r e b = ret (r, e, b)

  -- The assertion is the encoder's `assert(out)`.
  unfoldable pub encode_into : ℕ → Encoder t → Buffer → Exec Reply
  encode_into zero e b = fault no_fuel
  encode_into (suc fuel) e b = do
    assert (is_set b.buf)
    r ← encode t pb e (sub_size b.size b.at)
    c ← scribble b r.2
    on_encoded (encode_into fuel) r.0 r.1 c

  -- Each round but the last makes the buffer larger, and it grows up to `max`.
  unfoldable pub encoding : Encoder t → Buffer → Exec Reply
  encoding e b = encode_into (suc (b.max - b.size)) e b
