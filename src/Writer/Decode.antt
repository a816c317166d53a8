-- ===== src/Writer/Decode.antt =====
-- What `dnswire_writer_pop` and `dnswire_writer_write` of src/writer.c do with the decoder's answer;
-- the two have the same text.
use dnswire.Prelude.{none, some, ◌==◌, if◌then◌else◌}
use dnswire.Exec.{Exec, ret, ◌>>=◌}
use dnswire.Result.{Result, error, again, need_more, endofdata, bidirectional}
use dnswire.Alloc.{Allocator}
use dnswire.Buffer.{window, consume, rewind, make_room}
use dnswire.Tinyframe.{Tinyframe}
use dnswire.Dnstap.{Protobuf}
use dnswire.Decoder.{decoded, decode}
use dnswire.Writer.{Writer, reading_accept, encoding, done, Reply}

module _ (t : Tinyframe) where
  -- `case dnswire_bidirectional` under `dnswire_writer_decoding_accept`
  unfoldable pub on_bidirectional : Writer t → Reply t
  on_bidirectional w =
      let v = record w { input = rewind (consume w.input (decoded t w.decoder)) } in
      if w.decoder.accept_support_dnstap_protobuf
      then (again, record v { state = encoding })
      else (error, v)

  -- `case dnswire_again`
  unfoldable pub on_again : Writer t → Reply t
  on_again w =
      let b = rewind (consume w.input (decoded t w.decoder)) in
      let v = record w { input = b } in
      (again, if b.left == 0 then record v { state = reading_accept } else v)

  -- `case dnswire_need_more`, in both states
  unfoldable pub on_need_more : Allocator → Writer t → Exec (Reply t)
  on_need_more al w = do
    m ← make_room al w.input
    elim m [
      | none ↦ ret (error, w)
      | some b ↦ ret (need_more, record w { input = b; state = reading_accept })
    ]

  -- The `switch` on the decoder's answer, under `dnswire_writer_decoding_accept`.
  unfoldable pub on_accept : Allocator → Result → Writer t → Exec (Reply t)
  on_accept al bidirectional w = ret (on_bidirectional w)
  on_accept al again w = ret (on_again w)
  on_accept al need_more w = on_need_more al w
  on_accept al _ w = ret (error, w)

  -- The `switch` on the decoder's answer, under `dnswire_writer_decoding_finish`.
  unfoldable pub on_finish : Allocator → Result → Writer t → Exec (Reply t)
  on_finish al endofdata w = ret (endofdata, record w { state = done })
  on_finish al need_more w = on_need_more al w
  on_finish al _ w = ret (error, w)

  module _ (pb : Protobuf) (al : Allocator) where
    -- `dnswire_decoder_decode` on the bytes that wait.
    unfoldable pub decode_input : Writer t → Exec (Reply t)
    decode_input w = do
      s ← window w.input
      x ← decode t pb w.decoder s
      ret (x.0, record w { decoder = x.1 })

    unfoldable pub decode_accept : Writer t → Exec (Reply t)
    decode_accept w = do x ← decode_input w; on_accept al x.0 x.1

    unfoldable pub decode_finish : Writer t → Exec (Reply t)
    decode_finish w = do x ← decode_input w; on_finish al x.0 x.1
