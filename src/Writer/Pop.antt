-- ===== src/Writer/Pop.antt =====
-- `dnswire_writer_pop` of src/writer.c.
use dnswire.Prelude.{
  ℕ, Bool, true, false, not, ◌&&◌, ◌||◌, Option, none, some, ltb, ◌==◌, if◌then◌else◌,
}
use dnswire.Prelude.Size.{add_size}
use dnswire.Exec.{Exec, ret, ◌>>=◌, ◌>>◌, assert, deref, slice, store, Bytes}
use dnswire.Result.{Result, error, again, need_more, endofdata}
use dnswire.Alloc.{Allocator}
use dnswire.Buffer.{fitting, place, head, drain}
use dnswire.Tinyframe.{Tinyframe}
use dnswire.Dnstap.{Protobuf}
use dnswire.Encoder.Loop.{is_set}
use dnswire.Writer.{
  Writer, WriterState, encoding_ready, writing_ready, reading_accept, decoding_accept, encoding,
  writing, stopping, encoding_stop, writing_stop, reading_finish, decoding_finish, done, Reply,
  writer_encoding,
}
use dnswire.Writer.Decode.{decode_accept, decode_finish}

-- What a call works on: the writer, the caller's `data`, and the value at `in_len`.
pub record Call (t : Tinyframe) : Type 0 where
  pub writer : Writer t
  pub data_out : Bytes
  pub in_len : Option ℕ

-- What the caller gives and the call only reads: the room in `data`, `in_data`, `in_len_orig`.
pub record Given : Type 0 where
  pub len : ℕ
  pub in_data : Option Bytes
  pub in_len_orig : ℕ

abbrev pub is_error : Result → Bool
is_error error = true
is_error _ = false

abbrev pub is_endofdata : Result → Bool
is_endofdata endofdata = true
is_endofdata _ = false

module _ (t : Tinyframe) where
  abbrev pub PopReply : Type 0
  PopReply = Result × Call t

  -- A step of the writer alone.
  abbrev pub lift : Call t → Exec (Reply t) → Exec PopReply
  lift c m = m >>= λ x. ret (x.0, record c { writer = x.1 })

  -- Copy as much as fits of what is pending to `data`; at the end of it, `at` is 0 again.
  unfoldable pub pop_out : Given → Call t → Exec (Call t)
  pop_out g c = do
    let o = c.writer.output
    let n = if ltb g.len o.left then g.len else o.left
    h ← head o n
    q ← store c.data_out 0 h
    ret (record c { writer = record (c.writer) { popped = n; output = drain o n }; data_out = q })

  -- Copy what fits of `in_data` to the buffer for replies; the number goes to `*in_len`, and
  -- `handle->left` is the field that it is added to.
  unfoldable pub take_in : Given → Call t → Exec (Call t)
  take_in g c =
      let w = c.writer in
      let n = fitting w.input g.in_len_orig in
      if n == 0 then ret (record c { in_len = some 0 }) else do
        p ← deref g.in_data
        s ← slice p 0 n
        b ← place w.input s
        let o = record (w.output) { left = add_size w.output.left n }
        ret (record c { writer = record w { input = b; output = o }; in_len = some n })

  module _ (pb : Protobuf) (al : Allocator) (g : Given) where
    -- Each case with those that it falls through to. `res` is what is returned after a `break`.
    unfoldable pub pop_reading_accept : Call t → Exec PopReply
    pop_reading_accept c = if g.in_len_orig == 0 then ret (need_more, c) else do
      d ← take_in g c
      let w = record (d.writer) { state = decoding_accept }
      lift (record d { writer = w }) (decode_accept t pb al w)

    unfoldable pub pop_writing_ready : Result → Call t → Exec PopReply
    pop_writing_ready res c = do
      d ← pop_out g c
      if d.writer.output.left == 0
          then pop_reading_accept
              (record d { writer = record (d.writer) { state = reading_accept } })
          else ret (res, d)

    unfoldable pub pop_encoding_ready : Call t → Exec PopReply
    pop_encoding_ready c = do
      x ← writer_encoding t pb al c.writer
      if not (is_error x.0) && not (x.1.output.left == 0)
          then pop_writing_ready x.0 (record c { writer = record (x.1) { state = writing } })
          else ret (x.0, record c { writer = x.1 })

    unfoldable pub pop_writing : Result → Call t → Exec PopReply
    pop_writing res c = do
      d ← pop_out g c
      ret (
        res,
        if d.writer.output.left == 0
            then record d { writer = record (d.writer) { state = encoding } }
            else d,
      )

    unfoldable pub pop_encoding : Call t → Exec PopReply
    pop_encoding c = do
      x ← writer_encoding t pb al c.writer
      if not (is_error x.0) && not (x.1.output.left == 0)
          then pop_writing x.0 (record c { writer = record (x.1) { state = writing } })
          else ret (x.0, record c { writer = x.1 })

    -- `if (handle->left) { ... }`, where what is left returns `dnswire_again`; then the next case.
    unfoldable pub pop_rest : (Call t → Exec PopReply) → Call t → Exec PopReply
    pop_rest next c =
        if c.writer.output.left == 0
        then next c
        else do d ← pop_out g c; if d.writer.output.left == 0 then next d else ret (again, d)

    unfoldable pub after_stop : Call t → Exec PopReply
    after_stop c =
        let w = c.writer in
        ret (
          if w.bidirectional
          then (again, record c { writer = record w { state = reading_finish } })
          else (endofdata, record c { writer = record w { state = done } }))

    unfoldable pub pop_writing_stop : Call t → Exec PopReply
    pop_writing_stop c = pop_rest after_stop c

    unfoldable pub pop_encoding_stop : Call t → Exec PopReply
    pop_encoding_stop c = do
      x ← writer_encoding t pb al c.writer
      if is_endofdata x.0
          then pop_writing_stop (record c { writer = record (x.1) { state = writing_stop } })
          else ret (x.0, record c { writer = x.1 })

    unfoldable pub pop_stopping : Call t → Exec PopReply
    pop_stopping c =
        pop_rest
          (λ d.
            pop_encoding_stop (record d { writer = record (d.writer) { state = encoding_stop } }))
          c

    unfoldable pub pop_reading_finish : Call t → Exec PopReply
    pop_reading_finish c = if g.in_len_orig == 0 then ret (need_more, c) else do
      d ← take_in g c
      let w = record (d.writer) { state = decoding_finish }
      lift (record d { writer = w }) (decode_finish t pb al w)

    -- The `switch` on the state.
    unfoldable pub pop_in : WriterState → Call t → Exec PopReply
    pop_in encoding_ready c = pop_encoding_ready c
    pop_in writing_ready c = pop_writing_ready again c
    pop_in reading_accept c = pop_reading_accept c
    pop_in decoding_accept c = lift c (decode_accept t pb al c.writer)
    pop_in encoding c = pop_encoding c
    pop_in writing c = pop_writing again c
    pop_in stopping c = pop_stopping c
    pop_in encoding_stop c = pop_encoding_stop c
    pop_in writing_stop c = pop_writing_stop c
    pop_in reading_finish c = pop_reading_finish c
    pop_in decoding_finish c = lift c (decode_finish t pb al c.writer)
    pop_in done c = ret (error, c)

abbrev pub orig_len : Option ℕ → ℕ
orig_len none = 0
orig_len (some n) = n

abbrev pub clear_len : Option ℕ → Option ℕ
clear_len none = none
clear_len (some n) = some 0

unfoldable pub pop :
    (t : Tinyframe)
    → Protobuf
    → Allocator
    → Writer t
    → Bytes
    → ℕ
    → Option Bytes
    → Option ℕ
    → Exec (PopReply t)
pop t pb al w out len in_data in_len = do
  assert (not (len == 0))
  assert (is_set w.output.buf)
  assert (not w.bidirectional || is_set in_data)
  pop_in t pb al (record { len = len; in_data = in_data; in_len_orig = orig_len in_len }) w.state
      (record { writer = record w { popped = 0 }; data_out = out; in_len = clear_len in_len })
