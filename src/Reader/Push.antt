-- ===== src/Reader/Push.antt =====
-- `dnswire_reader_push` of src/reader.c.
use dnswire.Prelude.{
  ℕ, Bool, true, false, not, ◌&&◌, ◌||◌, Option, none, some, length, ltb, ◌==◌, if◌then◌else◌,
}
use dnswire.Exec.{Exec, ret, ◌>>=◌, ◌>>◌, assert, deref, store, Bytes}
use dnswire.Result.{Result, error, again, need_more, endofdata}
use dnswire.Alloc.{Allocator}
use dnswire.Buffer.{fill, head, drain}
use dnswire.Tinyframe.{Tinyframe}
use dnswire.Dnstap.{Protobuf}
use dnswire.Encoder.Loop.{is_set}
use dnswire.Reader.{
  Reader, ReaderState, reading_control, decoding_control, encoding_accept, writing_accept, reading,
  decoding, encoding_finish, writing_finish, done, Reply, reader_encoding,
}
use dnswire.Reader.Decode.{decode_control, decode_data}

-- What a call leaves: its result, the reader, the caller's `out_data` and the value at `out_len`.
pub record Pushed (t : Tinyframe) : Type 0 where
  pub result : Result
  pub reader : Reader t
  pub out_data : Option Bytes
  pub out_len : Option ℕ

abbrev pub some_len : Option ℕ → Bool
some_len none = false
some_len (some n) = true

-- `out_len_orig`, and `*out_len = 0`.
abbrev pub orig_len : Option ℕ → ℕ
orig_len none = 0
orig_len (some n) = n

abbrev pub clear_len : Option ℕ → Option ℕ
clear_len none = none
clear_len (some n) = some 0

module _ (t : Tinyframe) (pb : Protobuf) (al : Allocator) where
  -- Whether there is more to push than was taken: `len && handle->pushed < len`.
  unfoldable pub has_more : Reader t → ℕ → Bool
  has_more r len = not (len == 0) && ltb r.pushed len

  -- The steps up to `fallthrough`, and the case behind it.
  unfoldable pub fill_control : Reader t → Bytes → Exec (Reply t)
  fill_control r src = if length src == 0 then ret (need_more, r) else do
    f ← fill r.input src
    let q = record r { input = f.1; pushed = f.0; state = decoding_control }
    decode_control t pb al (has_more q (length src)) q

  unfoldable pub fill_data : Reader t → Bytes → Exec (Reply t)
  fill_data r src = if length src == 0 then ret (need_more, r) else do
    f ← fill r.input src
    let q = record r { input = f.1; pushed = f.0; state = decoding }
    decode_data t pb al (has_more q (length src)) q

  -- A case that writes nothing to the caller.
  abbrev quiet : Option Bytes → Option ℕ → Exec (Reply t) → Exec (Pushed t)
  quiet od ol m =
      m >>= λ x. ret (record { result = x.0; reader = x.1; out_data = od; out_len = ol })

  -- The cases `writing_accept` and `writing_finish`: `next` and `last` are the state and the result
  -- once all is written. `*out_len` is 0 already, and `room` was its value.
  unfoldable pub write_out :
      ReaderState → Result → Reader t → Option Bytes → Option ℕ → ℕ → Exec (Pushed t)
  write_out next last r od ol room = do
    assert (some_len ol)
    let n = if ltb r.output.left room then r.output.left else room
    w ← head r.output n
    p ← deref od
    q ← store p 0 w
    let b = drain r.output n
    let s = record r { output = b }
    ret (record {
      result = if b.left == 0 then last else again;
      reader = if b.left == 0 then record s { state = next } else s;
      out_data = some q;
      out_len = some n;
    })

  -- After `_encoding` in `encoding_accept`, and in `encoding_finish`.
  unfoldable pub on_accept : Result → Reader t → Option Bytes → Option ℕ → ℕ → Exec (Pushed t)
  on_accept again r od ol room =
      write_out reading_control again (record r { state = writing_accept }) od ol room
  on_accept _ r od ol room = quiet od ol (ret (error, r))

  unfoldable pub on_finish : Result → Reader t → Option Bytes → Option ℕ → ℕ → Exec (Pushed t)
  on_finish endofdata r od ol room =
      write_out done endofdata (record r { state = writing_finish }) od ol room
  on_finish _ r od ol room = quiet od ol (ret (error, r))

  -- The `switch` on the state.
  unfoldable pub push_in :
      ReaderState → Reader t → Bytes → Option Bytes → Option ℕ → ℕ → Exec (Pushed t)
  push_in reading_control r src od ol room = quiet od ol (fill_control r src)
  push_in decoding_control r src od ol room =
      quiet od ol (decode_control t pb al (has_more r (length src)) r)
  push_in encoding_accept r src od ol room = do
    x ← reader_encoding t pb al r
    on_accept x.0 x.1 od ol room
  push_in writing_accept r src od ol room = write_out reading_control again r od ol room
  push_in reading r src od ol room = quiet od ol (fill_data r src)
  push_in decoding r src od ol room = quiet od ol (decode_data t pb al (has_more r (length src)) r)
  push_in encoding_finish r src od ol room = do
    x ← reader_encoding t pb al r
    on_finish x.0 x.1 od ol room
  push_in writing_finish r src od ol room = write_out done endofdata r od ol room
  push_in done r src od ol room = quiet od ol (ret (error, r))

  unfoldable pub push : Reader t → Bytes → Option Bytes → Option ℕ → Exec (Pushed t)
  push r src od ol = do
    assert (is_set r.input.buf)
    assert (not r.allow_bidirectional || is_set od)
    assert (not r.allow_bidirectional || some_len ol)
    push_in r.state (record r { pushed = 0 }) src od (clear_len ol) (orig_len ol)
