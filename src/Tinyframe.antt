-- ===== src/Tinyframe.antt =====
-- The tinyframe library, which frames the bytes (Frame Streams). Its code is not part of this
-- repository: a record holds its types and the calls and fields that dnswire uses, and
-- `IsTinyframe` what dnswire relies on.
use dnswire.Prelude.{ℕ, ◌≤◌, ◌≡◌, Bool, true, false, List, length}
use dnswire.Exec.{Bytes}

-- `enum tinyframe_result`; `error` stands for every value that dnswire does not name.
pub data TinyframeResult : Type 0 where
  ok need_more have_control have_control_field have_frame stopped finished error : TinyframeResult

-- The control types and field types that dnswire names, and any other.
pub data Control : Type 0 where
  ready accept start stop finish unknown : Control

pub data Field : Type 0 where
  content_type unknown : Field

-- A write takes the room at `out` and gives its result, the new writer and the bytes stored there.
pub record Tinyframe : Type 1 where
  pub Reader : Type 0
  pub Writer : Type 0
  pub reader_initializer : Reader
  pub writer_initializer : Writer
  pub read : Reader → Bytes → TinyframeResult × Reader
  pub bytes_read : Reader → ℕ
  pub control_type : Reader → Control
  pub control_length_left : Reader → ℕ
  pub control_field_type : Reader → Field
  pub control_field_data : Reader → Bytes
  pub frame_data : Reader → Bytes
  pub write_control : Writer → ℕ → Control → List (Field × Bytes) → TinyframeResult × Writer × Bytes
  pub write_control_start : Writer → ℕ → Bytes → TinyframeResult × Writer × Bytes
  pub write_control_stop : Writer → ℕ → TinyframeResult × Writer × Bytes
  pub write_frame : Writer → ℕ → Bytes → TinyframeResult × Writer × Bytes
  pub frame_size : ℕ → ℕ
  pub bytes_wrote : Writer → ℕ

-- The results after which the reader has gone past a part of the data.
abbrev pub is_part : TinyframeResult → Bool
is_part have_control = true
is_part have_control_field = true
is_part have_frame = true
is_part _ = false

-- A write stays in the room that it is given, and `bytes_wrote` counts a finished one.
abbrev pub Wrote : (t : Tinyframe) → ℕ → TinyframeResult × t.Writer × Bytes → Type 0
Wrote t len out = (length out.2 ≤ len) × (out.0 ≡ ok → t.bytes_wrote out.1 ≡ length out.2)

pub record IsTinyframe (t : Tinyframe) : Type 0 where
  pub read_within :
      (r : t.Reader) (src : Bytes)
      → is_part (t.read r src).0 ≡ true
      → t.bytes_read (t.read r src).1 ≤ length src
  pub control_wrote :
      (w : t.Writer) (len : ℕ) (c : Control) (fs : List (Field × Bytes))
      → Wrote t len (t.write_control w len c fs)
  pub start_wrote :
      (w : t.Writer) (len : ℕ) (ct : Bytes) → Wrote t len (t.write_control_start w len ct)
  pub stop_wrote : (w : t.Writer) (len : ℕ) → Wrote t len (t.write_control_stop w len)
  pub frame_wrote :
      (w : t.Writer) (len : ℕ) (frame : Bytes) → Wrote t len (t.write_frame w len frame)
