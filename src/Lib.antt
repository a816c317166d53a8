-- ===== src/Lib.antt =====
-- A model of dnswire, the C library that reads and writes DNSTAP data over Frame Streams, and the
-- theorems about it.
--
-- The program. `dnswire_decoder_decode` (src/decoder.c) and `dnswire_encoder_encode`
-- (src/encoder.c) are state machines that go through the control frames of a Frame Streams session
-- and through its data frames, whose bytes src/dnstap.c packs and unpacks. The reader (src/reader.c)
-- drives a decoder from a buffer that the caller fills (`dnswire_reader_push`) or that is read from
-- a descriptor (`dnswire_reader_read`); in a bidirectional session it also drives an encoder for the
-- replies. The writer (src/writer.c) drives an encoder whose buffer the caller empties
-- (`dnswire_writer_pop`) or that is written to a descriptor (`dnswire_writer_write`), and a decoder
-- for the replies.
--
-- The files.
--   Prelude         what all files share: numbers, Booleans, options, lists, rules for them;
--                   Prelude/Size has the arithmetic of `size_t`, which wraps at 2^64
--   Exec            the calls as values: a call ends in `ret`, or in `fault` where the C code fails
--                   an `assert`, follows a null pointer or leaves an array; Exec/Rules reasons on it
--   Alloc, Io, Tinyframe
--                   what the code uses of `malloc` and `realloc`, of `read` and `write`, and of
--                   tinyframe, as records, with the properties that the theorems ask for
--   Buffer          the group of fields `buf`, `size`, `inc`, `max`, `at`, `left` that the reader
--                   and the writer each have twice, and the pieces of code that work on one group;
--                   Buffer/* has the view of a group as a queue of bytes
--   Names           the tables of names of all enums; Names/Bounds is about those that
--                   decoded data indexes
--   Trace, Print    `__printable_string` of src/trace.c, and the function of the same purpose in
--                   examples/print_dnstap.c; Trace/Text is about the first, Print/Same compares them;
--                   Print/Message is `print_dnstap`, which Print/Steps and Print/Safe are about
--   Result          enum dnswire_result, src/dnswire/dnswire.h; Result/Failing is a helper for the
--                   diagrams of states
--   Dnstap          src/dnstap.c and the macros of src/dnswire/dnstap.h, with protobuf-c
--                   and the generated dnstap.pb-c.c as the record `Protobuf`; Dnstap/Decoded is
--                   about decoding, Set and Fields are the setters, Built about them, Roundtrip
--                   about both directions
--   Decoder         src/decoder.c; Decoder/Contract is what its callers rely on, Decoder/Paths the
--                   diagram of its states, Decoder/Resembling about the content type
--   Encoder         src/encoder.c; Encoder/Contract is what its callers rely on, Encoder/Paths the
--                   diagram of its states; Encoder/Loop is the loop of `_encoding`, which the
--                   reader and the writer share
--   Reader          src/reader.c: the state, the setters; Reader/Decode the cases that decode,
--                   Reader/Push and Reader/Read the two ways to drive it; Reader/Valid is when
--                   a reader is well formed, Steps and Replies are about what `push` and `read`
--                   share, Feeding and Safe about `push`, Transfers and Descriptor about `read`,
--                   Setup about the setters, Sessions about these in any order; Paths is the
--                   diagram of the states, and Diagram says that `read` follows it
--   Writer          src/writer.c: the state, the setters, `stop`; Writer/Decode the cases that
--                   decode, Writer/Pop and Writer/Write the two ways to drive it; Writer/Valid is
--                   when a writer is well formed, Pending, Rest, Encoding and Safe are about
--                   `pop`, Lost is about `pop` after `stop`, Starved about its reading of replies,
--                   Setup about `init`. Duplex is when a writer of either kind of
--                   session is well formed; Replies, Descriptor, Sending, Outcome, Encodes, Ending
--                   and Total are about `write`, Limits and Misplaced about the setters, Sessions
--                   about the calls in any order; Paths is the diagram of the states, and Diagram
--                   says that `write` follows it; Closing and Liveness are about the calls after
--                   `stop`, Cut about a FINISH in pieces, Skipped about a READY in two parts
--   Sender          the loop of examples/sender.c; Order is about its calls of the writer, Rounds and
--                   Finish about its rounds with a message that can be encoded, Dangles about the
--                   message that it makes
--   Daemon          the callbacks of examples/daemon_sender_uv.c on its list of clients; Valid is when
--                   a server is well formed, Clients about the list, Offers about one request,
--                   Callbacks about one client, Tick about `tick`, Served about all in any order
--   ClientReceiver  `client_read` of examples/client_receiver_uv.c, with its loop over
--                   `dnswire_reader_push`; Steps, Rounds and Turns are about one round, Ends about
--                   the loop, Waits about what one call prints, Heard about a whole connection
--   FileReader      the loop of examples/reader.c over a file; Rounds is about one round, Ends about
--                   the loop
--   Create          `create_dnstap` of examples/create_dnstap.c; Made is about the message
--   Tests           toy instances of the parameters and the theorems at concrete inputs
--
-- How the code is modelled. A struct is a record, an enum a data type, a function that changes a
-- struct returns the new one. A pointer that may be null is an Option of the bytes behind it, and
-- bytes are numbers. Each `case` of a `switch` on the state is a function, and falling through is a
-- call of the next one. `size_t` is a number below 2^64, with its wrap-around written out where
-- sizes are added or subtracted. The loop of `_encoding` runs on fuel: one more than `max - size`,
-- which is enough since each round makes the buffer larger, and never larger than `max`. The loops
-- of `client_read` and of examples/reader.c have three rounds for every byte that they are given,
-- and two for every byte in the buffer. libuv is the environment: what it calls, and whether it
-- takes a request, is free. The calls of `__trace` and the debug output are left out, since they
-- change nothing. The pointers to the structs themselves are taken to be valid. A struct that a
-- function returns by value is a copy, in which a pointer into the function's variables leads
-- nowhere; a read through it is a fault.
--
-- What is not modelled: the accessors that gen-macros.sh writes, but for the setters of a message;
-- examples/receiver.c, reader_sender.c and writer.c, the sockets, the arguments and the files of the
-- other examples, and the programs under test/. What tinyframe and protobuf-c do is not here, so the
-- theorems are about any library that has the properties in `IsTinyframe` and `IsProtobuf`, and where
-- they say so those in `Advances`, `IsInitial` and `Unpacks`; the fields of a policy other than its
-- enums are kept as one opaque list. After `dnswire_error` the structs are as the code leaves them,
-- and no theorem says that they are well formed.
pub mod Prelude
pub mod Exec
pub mod Alloc
pub mod Buffer
pub mod Result
pub mod Tinyframe
pub mod Dnstap
pub mod Decoder
pub mod Encoder
pub mod Io
pub mod Reader
pub mod Writer
pub mod Names
pub mod Daemon
pub mod ClientReceiver
pub mod FileReader
pub mod Create
pub mod Print
pub mod Sender
pub mod Trace
pub mod Tests
