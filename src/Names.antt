-- ===== src/Names.antt =====
-- The tables of names in src/dnswire.c, src/decoder.c, src/encoder.c, src/reader.c, src/writer.c and
-- src/dnstap.c, which are indexed by the numbers of the enums.
pub mod Bounds
use Prim.Native.String.{String}
use dnswire.Prelude.{ℕ, List, [], ◌∷◌}
use dnswire.Result.{Result}
use dnswire.Decoder.{DecoderState}
use dnswire.Encoder.{EncoderState}
use dnswire.Reader.{ReaderState}
use dnswire.Writer.{WriterState}

unfoldable pub result_string : List String
result_string =
    "ok" ∷ "error" ∷ "again" ∷ "need_more" ∷ "have_dnstap" ∷ "endofdata" ∷ "bidirectional" ∷ []

unfoldable pub result_number : Result → ℕ
result_number Result.ok = 0
result_number Result.error = 1
result_number Result.again = 2
result_number Result.need_more = 3
result_number Result.have_dnstap = 4
result_number Result.endofdata = 5
result_number Result.bidirectional = 6

unfoldable pub decoder_state_string : List String
decoder_state_string =
    "reading_control" ∷ "checking_ready" ∷ "checking_accept" ∷ "reading_start" ∷ "checking_start"
    ∷ "reading_frames" ∷ "checking_finish" ∷ "done" ∷ []

unfoldable pub decoder_state_number : DecoderState → ℕ
decoder_state_number DecoderState.reading_control = 0
decoder_state_number DecoderState.checking_ready = 1
decoder_state_number DecoderState.checking_accept = 2
decoder_state_number DecoderState.reading_start = 3
decoder_state_number DecoderState.checking_start = 4
decoder_state_number DecoderState.reading_frames = 5
decoder_state_number DecoderState.checking_finish = 6
decoder_state_number DecoderState.done = 7

unfoldable pub encoder_state_string : List String
encoder_state_string =
    "control_ready" ∷ "control_start" ∷ "control_accept" ∷ "control_finish" ∷ "frames"
    ∷ "control_stop" ∷ "done" ∷ []

unfoldable pub encoder_state_number : EncoderState → ℕ
encoder_state_number EncoderState.control_ready = 0
encoder_state_number EncoderState.control_start = 1
encoder_state_number EncoderState.control_accept = 2
encoder_state_number EncoderState.control_finish = 3
encoder_state_number EncoderState.frames = 4
encoder_state_number EncoderState.control_stop = 5
encoder_state_number EncoderState.done = 6

unfoldable pub reader_state_string : List String
reader_state_string =
    "reading_control" ∷ "decoding_control" ∷ "encoding_accept" ∷ "writing_accept" ∷ "reading"
    ∷ "decoding" ∷ "encoding_finish" ∷ "writing_finish" ∷ "done" ∷ []

unfoldable pub reader_state_number : ReaderState → ℕ
reader_state_number ReaderState.reading_control = 0
reader_state_number ReaderState.decoding_control = 1
reader_state_number ReaderState.encoding_accept = 2
reader_state_number ReaderState.writing_accept = 3
reader_state_number ReaderState.reading = 4
reader_state_number ReaderState.decoding = 5
reader_state_number ReaderState.encoding_finish = 6
reader_state_number ReaderState.writing_finish = 7
reader_state_number ReaderState.done = 8

unfoldable pub writer_state_string : List String
writer_state_string =
    "encoding_ready" ∷ "writing_ready" ∷ "reading_accept" ∷ "decoding_accept" ∷ "encoding"
    ∷ "writing" ∷ "stopping" ∷ "encoding_stop" ∷ "writing_stop" ∷ "reading_finish"
    ∷ "decoding_finish" ∷ "done" ∷ []

unfoldable pub writer_state_number : WriterState → ℕ
writer_state_number WriterState.encoding_ready = 0
writer_state_number WriterState.writing_ready = 1
writer_state_number WriterState.reading_accept = 2
writer_state_number WriterState.decoding_accept = 3
writer_state_number WriterState.encoding = 4
writer_state_number WriterState.writing = 5
writer_state_number WriterState.stopping = 6
writer_state_number WriterState.encoding_stop = 7
writer_state_number WriterState.writing_stop = 8
writer_state_number WriterState.reading_finish = 9
writer_state_number WriterState.decoding_finish = 10
writer_state_number WriterState.done = 11

unfoldable pub type_string : List String
type_string = "UNKNOWN" ∷ "MESSAGE" ∷ []

unfoldable pub message_type_string : List String
message_type_string =
    "UNKNOWN" ∷ "AUTH_QUERY" ∷ "AUTH_RESPONSE" ∷ "RESOLVER_QUERY" ∷ "RESOLVER_RESPONSE"
    ∷ "CLIENT_QUERY" ∷ "CLIENT_RESPONSE" ∷ "FORWARDER_QUERY" ∷ "FORWARDER_RESPONSE" ∷ "STUB_QUERY"
    ∷ "STUB_RESPONSE" ∷ "TOOL_QUERY" ∷ "TOOL_RESPONSE" ∷ "UPDATE_QUERY" ∷ "UPDATE_RESPONSE" ∷ []

unfoldable pub socket_family_string : List String
socket_family_string = "UNKNOWN" ∷ "INET" ∷ "INET6" ∷ []

unfoldable pub socket_protocol_string : List String
socket_protocol_string =
    "UNKNOWN" ∷ "UDP" ∷ "TCP" ∷ "DOT" ∷ "DOH" ∷ "DNSCryptUDP" ∷ "DNSCryptTCP" ∷ "DOQ" ∷ []

unfoldable pub policy_action_string : List String
policy_action_string =
    "UNKNOWN" ∷ "NXDOMAIN" ∷ "NODATA" ∷ "PASS" ∷ "DROP" ∷ "TRUNCATE" ∷ "LOCAL_DATA" ∷ []

unfoldable pub policy_match_string : List String
policy_match_string = "UNKNOWN" ∷ "QNAME" ∷ "CLIENT_IP" ∷ "RESPONSE_IP" ∷ "NS_NAME" ∷ "NS_IP" ∷ []
