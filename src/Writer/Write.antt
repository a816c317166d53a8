-- ===== src/Writer/Write.antt =====
-- `dnswire_writer_write` of src/writer.c.
use dnswire.Prelude.{not, ◌&&◌, none, some, length, ◌==◌, if◌then◌else◌}
use dnswire.Exec.{Exec, ret, ◌>>=◌, ◌>>◌, assert}
use dnswire.Result.{Result, error, again, endofdata}
use dnswire.Alloc.{Allocator}
use dnswire.Io.{Io}
use dnswire.Buffer.{free_space, copy_in, head, drain}
use dnswire.Tinyframe.{Tinyframe}
use dnswire.Dnstap.{Protobuf}
use dnswire.Encoder.Loop.{is_set}
use dnswire.Writer.{
  Writer, WriterState, encoding_ready, writing_ready, reading_accept, decoding_accept, encoding,
  writing, stopping, encoding_stop, writing_stop, reading_finish, decoding_finish, done, Reply,
  writer_encoding,
}
use dnswire.Writer.Decode.{decode_accept, decode_finish}
use dnswire.Writer.Pop.{is_error, is_endofdata}

module _ (t : Tinyframe) (pb : Protobuf) (al : Allocator) where
  -- `write` what is pending; an error, and a `write` of no byte, leave the writer as it was. Else
  -- the next step gets the writer without the bytes written, with `at` 0 if none is left.
  unfoldable pub write_out : Io → (Writer t → Exec (Reply t)) → Writer t → Exec (Reply t)
  write_out io next w = do
    h ← head w.output w.output.left
    elim (io.write h) [
      | none ↦ ret (error, w)
      | some n ↦ if n == 0 then ret (error, w) else next (record w { output = drain w.output n })
    ]

  -- `read` into the buffer for replies.
  unfoldable pub read_reply : Io → (Writer t → Exec (Reply t)) → Writer t → Exec (Reply t)
  read_reply io next w = elim (io.read (free_space w.input)) [
    | none ↦ ret (error, w)
    | some bs ↦
        if length bs == 0
        then ret (error, w)
        else do b ← copy_in w.input (length bs) bs; next (record w { input = b })
  ]

  -- Each case with those that it falls through to. `res` is what is returned after a `break`.
  unfoldable pub write_reading_accept : Io → Writer t → Exec (Reply t)
  write_reading_accept io w =
      read_reply io (λ v. decode_accept t pb al (record v { state = decoding_accept })) w

  unfoldable pub write_writing_ready : Io → Result → Writer t → Exec (Reply t)
  write_writing_ready io res w =
      write_out io
        (λ v.
          if v.output.left == 0
          then write_reading_accept io (record v { state = reading_accept })
          else ret (res, v))
        w

  unfoldable pub write_encoding_ready : Io → Writer t → Exec (Reply t)
  write_encoding_ready io w = do
    x ← writer_encoding t pb al w
    if not (is_error x.0) && not (x.1.output.left == 0)
        then write_writing_ready io x.0 (record (x.1) { state = writing })
        else ret (x.0, x.1)

  unfoldable pub write_writing : Io → Result → Writer t → Exec (Reply t)
  write_writing io res w =
      write_out io (λ v. ret (res, if v.output.left == 0 then record v { state = encoding } else v))
        w

  unfoldable pub write_encoding : Io → Writer t → Exec (Reply t)
  write_encoding io w = do
    x ← writer_encoding t pb al w
    if not (is_error x.0) && not (x.1.output.left == 0)
        then write_writing io x.0 (record (x.1) { state = writing })
        else ret (x.0, x.1)

  -- `if (handle->left) { ... }`, where what is left returns `dnswire_again`; then the next case.
  unfoldable pub write_rest : Io → (Writer t → Exec (Reply t)) → Writer t → Exec (Reply t)
  write_rest io next w =
      if w.output.left == 0
      then next w
      else write_out io (λ v. if v.output.left == 0 then next v else ret (again, v)) w

  unfoldable pub write_writing_stop : Io → Writer t → Exec (Reply t)
  write_writing_stop io w =
      write_rest io
        (λ v. ret (
          if v.bidirectional
          then (again, record v { state = reading_finish })
          else (endofdata, record v { state = done })))
        w

  unfoldable pub write_encoding_stop : Io → Writer t → Exec (Reply t)
  write_encoding_stop io w = do
    x ← writer_encoding t pb al w
    if is_endofdata x.0
        then write_writing_stop io (record (x.1) { state = writing_stop })
        else ret (x.0, x.1)

  -- The second `Io` answers a second `write` of the same call.
  unfoldable pub write_stopping : Io → Io → Writer t → Exec (Reply t)
  write_stopping io io' w =
      write_rest io (λ v. write_encoding_stop io' (record v { state = encoding_stop })) w

  unfoldable pub write_reading_finish : Io → Writer t → Exec (Reply t)
  write_reading_finish io w =
      read_reply io (λ v. decode_finish t pb al (record v { state = decoding_finish })) w

  -- The `switch` on the state.
  unfoldable pub write_in : Io → Io → WriterState → Writer t → Exec (Reply t)
  write_in io io' encoding_ready w = write_encoding_ready io w
  write_in io io' writing_ready w = write_writing_ready io again w
  write_in io io' reading_accept w = write_reading_accept io w
  write_in io io' decoding_accept w = decode_accept t pb al w
  write_in io io' encoding w = write_encoding io w
  write_in io io' writing w = write_writing io again w
  write_in io io' stopping w = write_stopping io io' w
  write_in io io' encoding_stop w = write_encoding_stop io w
  write_in io io' writing_stop w = write_writing_stop io w
  write_in io io' reading_finish w = write_reading_finish io w
  write_in io io' decoding_finish w = decode_finish t pb al w
  write_in io io' done w = ret (error, w)

  unfoldable pub write : Io → Io → Writer t → Exec (Reply t)
  write io io' w = do assert (is_set w.output.buf); write_in io io' w.state w
