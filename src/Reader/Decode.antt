-- ===== src/Reader/Decode.antt =====
-- What `dnswire_reader_push` and `dnswire_reader_read` of src/reader.c do with the decoder's answer.
-- The two have the same text, but for the end of `dnswire_need_more`: `push` asks to be called
-- again if it was given more than it could take (`more`), and `read` does not (`false`).
use dnswire.Prelude.{Bool, true, none, some, ◌==◌, if◌then◌else◌}
use dnswire.Exec.{Exec, ret, ◌>>=◌}
use dnswire.Result.{Result, error, again, need_more, have_dnstap, endofdata, bidirectional}
use dnswire.Alloc.{Allocator}
use dnswire.Buffer.{window, consume, rewind, make_room}
use dnswire.Tinyframe.{Tinyframe}
use dnswire.Dnstap.{Protobuf}
use dnswire.Decoder.{decoded, decode}
use dnswire.Reader.{
  Reader, ReaderState, reading_control, encoding_accept, reading, decoding, encoding_finish, done,
  Reply,
}

module _ (t : Tinyframe) where
  -- Go behind what was decoded; with nothing left, start over in the state `idle`.
  unfoldable pub past : ReaderState → Reader t → Reader t
  past idle r =
      let b = rewind (consume r.input (decoded t r.decoder)) in
      if b.left == 0 then record r { input = b; state = idle } else record r { input = b }

  -- `case dnswire_bidirectional` under `dnswire_reader_decoding_control`
  unfoldable pub on_bidirectional : Reader t → Reply t
  on_bidirectional r =
      let q = past reading_control r in
      let b = record q { is_bidirectional = true } in
      if q.allow_bidirectional
      then (if r.decoder.ready_support_dnstap_protobuf
          then (again, record b { state = encoding_accept })
          else (error, b))
      else (error, q)

  -- `case dnswire_need_more`
  unfoldable pub on_need_more : Allocator → ReaderState → Bool → Reader t → Exec (Reply t)
  on_need_more al idle more r = do
    m ← make_room al r.input
    elim m [
      | none ↦ ret (error, r)
      | some b ↦ ret (if more then again else need_more, record r { input = b; state = idle })
    ]

  -- `case dnswire_have_dnstap` under `dnswire_reader_decoding_control`
  unfoldable pub on_first_dnstap : Reader t → Reply t
  on_first_dnstap r =
      let b = rewind (consume r.input (decoded t r.decoder)) in
      (have_dnstap, record r { input = b; state = if b.left == 0 then reading else decoding })

  -- `case dnswire_endofdata`
  unfoldable pub on_endofdata : Reader t → Reply t
  on_endofdata r =
      if r.is_bidirectional
      then (again, record r { state = encoding_finish })
      else (endofdata, record r { state = done })

  -- The `switch` on the decoder's answer, under `dnswire_reader_decoding_control`.
  unfoldable pub on_control : Allocator → Bool → Result → Reader t → Exec (Reply t)
  on_control al more bidirectional r = ret (on_bidirectional r)
  on_control al more again r = ret (again, past reading_control r)
  on_control al more need_more r = on_need_more al reading_control more r
  on_control al more have_dnstap r = ret (on_first_dnstap r)
  on_control al more endofdata r = ret (on_endofdata r)
  on_control al more _ r = ret (error, r)

  -- The `switch` on the decoder's answer, under `dnswire_reader_decoding`.
  unfoldable pub on_data : Allocator → Bool → Result → Reader t → Exec (Reply t)
  on_data al more again r = ret (again, past reading r)
  on_data al more need_more r = on_need_more al reading more r
  on_data al more have_dnstap r = ret (have_dnstap, past reading r)
  on_data al more endofdata r = ret (on_endofdata r)
  on_data al more _ r = ret (error, r)

  module _ (pb : Protobuf) (al : Allocator) where
    -- `dnswire_decoder_decode` on the bytes that wait.
    unfoldable pub decode_input : Reader t → Exec (Reply t)
    decode_input r = do
      w ← window r.input
      x ← decode t pb r.decoder w
      ret (x.0, record r { decoder = x.1 })

    unfoldable pub decode_control : Bool → Reader t → Exec (Reply t)
    decode_control more r = do x ← decode_input r; on_control al more x.0 x.1

    unfoldable pub decode_data : Bool → Reader t → Exec (Reply t)
    decode_data more r = do x ← decode_input r; on_data al more x.0 x.1
