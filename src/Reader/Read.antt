-- ===== src/Reader/Read.antt =====
-- `dnswire_reader_read` of src/reader.c.
use dnswire.Prelude.{false, none, some, length, ◌==◌, if◌then◌else◌}
use dnswire.Exec.{Exec, ret, ◌>>=◌, ◌>>◌, assert}
use dnswire.Result.{Result, error, again, endofdata}
use dnswire.Alloc.{Allocator}
use dnswire.Io.{Io}
use dnswire.Buffer.{free_space, copy_in, head, drain}
use dnswire.Tinyframe.{Tinyframe}
use dnswire.Dnstap.{Protobuf}
use dnswire.Encoder.Loop.{is_set}
use dnswire.Reader.{
  Reader, ReaderState, reading_control, decoding_control, encoding_accept, writing_accept, reading,
  decoding, encoding_finish, writing_finish, done, Reply, reader_encoding,
}
use dnswire.Reader.Decode.{decode_control, decode_data}

module _ (t : Tinyframe) (pb : Protobuf) (al : Allocator) (io : Io) where
  -- `read` into the free space; an end of file is an error too.
  unfoldable pub read_control : Reader t → Exec (Reply t)
  read_control r = elim (io.read (free_space r.input)) [
    | none ↦ ret (error, r)
    | some bs ↦ if length bs == 0 then ret (error, r) else do
      b ← copy_in r.input (length bs) bs
      decode_control t pb al false (record r { input = b; state = decoding_control })
  ]

  unfoldable pub read_data : Reader t → Exec (Reply t)
  read_data r = elim (io.read (free_space r.input)) [
    | none ↦ ret (error, r)
    | some bs ↦ if length bs == 0 then ret (error, r) else do
      b ← copy_in r.input (length bs) bs
      decode_data t pb al false (record r { input = b; state = decoding })
  ]

  -- The cases `writing_accept` and `writing_finish`.
  unfoldable pub write_fd : ReaderState → Result → Reader t → Exec (Reply t)
  write_fd next last r = do
    w ← head r.output r.output.left
    elim (io.write w) [
      | none ↦ ret (error, r)
      | some n ↦
          if n == 0
          then ret (error, r)
          else let b = drain r.output n in
            let s = record r { output = b } in
            ret (if b.left == 0 then (last, record s { state = next }) else (again, s))
    ]

  unfoldable pub read_accept : Result → Reader t → Exec (Reply t)
  read_accept again r = write_fd reading_control again (record r { state = writing_accept })
  read_accept _ r = ret (error, r)

  unfoldable pub read_finish : Result → Reader t → Exec (Reply t)
  read_finish endofdata r = write_fd done endofdata (record r { state = writing_finish })
  read_finish _ r = ret (error, r)

  -- The `switch` on the state.
  unfoldable pub read_in : ReaderState → Reader t → Exec (Reply t)
  read_in reading_control r = read_control r
  read_in decoding_control r = decode_control t pb al false r
  read_in encoding_accept r = do x ← reader_encoding t pb al r; read_accept x.0 x.1
  read_in writing_accept r = write_fd reading_control again r
  read_in reading r = read_data r
  read_in decoding r = decode_data t pb al false r
  read_in encoding_finish r = do x ← reader_encoding t pb al r; read_finish x.0 x.1
  read_in writing_finish r = write_fd done endofdata r
  read_in done r = ret (error, r)

  unfoldable pub read : Reader t → Exec (Reply t)
  read r = do assert (is_set r.input.buf); read_in r.state r
