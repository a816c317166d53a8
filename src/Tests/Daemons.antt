-- ===== src/Tests/Daemons.antt =====
-- The theorems about examples/daemon_sender_uv.c at concrete inputs, and tests of its callbacks.
use dnswire.Prelude.{ℕ, ◌≡◌, refl, true, false, [], ◌∷◌, none, some, replicate, arith, map}
use dnswire.Prelude.Size.{add_size}
use dnswire.Exec.{ret, Ensures, store, slice}
use dnswire.Dnstap.{linked, all_alive, message_at, is_null, encode_protobuf_size, encode_protobuf}
use dnswire.Daemon.{
  no_state, writing_start, control_start, Client, Server, Block, Header, IsHeader, eof,
  initial_server, buf_size, idle_handle, client_close, client_read, written, on_new_connection,
  tick_with, at_client,
}
use dnswire.Daemon.Valid.{Apart, IsServer}
use dnswire.Daemon.Clients.{without, client_close_lem}
use dnswire.Daemon.Served.{Served, launched, connected, was_written, Served-IsServer}
use dnswire.Tests.Toy.{toy, toy_laws, toy_protobuf, toy_protobuf_laws}
use dnswire.Tests.Loops.{message}

abbrev toy_header : Header
toy_header = record { size = 4; set = λ f n. f }

toy_header_laws : IsHeader toy_header
toy_header_laws = record { set_length = λ f n. refl }

abbrev block : ℕ → Block
block a = record { address = a; wbuf_len = 0; buf = replicate buf_size 0 }

abbrev client : ℕ → ℕ → Client
client a n = record {
  address = a;
  id = n;
  state = no_state;
  conn = idle_handle;
  wbuf_len = 0;
  buf = [];
}

abbrev three : Server
three = record { clients = client 30 3 ∷ client 10 2 ∷ client 20 1 ∷ []; client_id = 4 }

three-Apart : Apart three.clients
three-Apart = omega arith

client_close_lem_example : (client_close 10 three).clients ≡ without 10 three.clients
client_close_lem_example = client_close_lem 10 three three-Apart

close_second : (client_close 10 three).clients ≡ client 30 3 ∷ client 20 1 ∷ []
unfolding client_close
close_second = refl

-- A client is accepted, and the control start is on its way.
abbrev greeted : Server
greeted = record {
  clients =
      record {
        address = 7;
        id = 1;
        state = writing_start;
        conn = record {
          is_reading = true;
          closes = 0;
          request = some (record { len = 1; bytes = 3 ∷ [] });
          taken = (3 ∷ []) ∷ [];
        };
        wbuf_len = 1;
        buf = 3 ∷ replicate 4095 0;
      }
      ∷ [];
  client_id = 2;
}

greet : on_new_connection toy true (some (block 7)) true true initial_server ≡ ret greeted
unfolding on_new_connection store slice add_size control_start
greet = refl

greeted-Served : Served toy toy_protobuf toy_header greeted
greeted-Served = connected true (some (block 7)) true true launched (tt, refl) (omega arith) greet

-- The control start is written, and the client waits for frames.
abbrev ready : Server
ready = record greeted { clients = at_client 7 (written true) greeted.clients }

ready-Served : Served toy toy_protobuf toy_header ready
ready-Served = was_written 7 true greeted-Served

Served-IsServer_example : IsServer toy toy_protobuf toy_header ready
Served-IsServer_example =
    Served-IsServer toy toy_protobuf toy_header ready toy_laws toy_protobuf_laws toy_header_laws
      ready-Served

-- With a message that can be encoded, the client that a tick finds gets the frame.
sent_frame :
    Ensures
      (λ o. elim o [
        | none ↦ ⊥
        | some s ↦
            map (λ c. c.conn.taken) s.clients ≡ ((0 ∷ 0 ∷ 0 ∷ 0 ∷ 5 ∷ []) ∷ (3 ∷ []) ∷ []) ∷ []
      ])
      (tick_with toy_protobuf toy_header message (λ a. true) ready)
unfolding tick_with linked all_alive message_at is_null encode_protobuf_size encode_protobuf
    at_client written slice store
sent_frame = refl

-- A client that goes away while a frame is in flight is closed by `client_read`, and once more by
-- `client_write` with the request that this cancels.
close_twice :
    map
      (λ c. c.conn.closes)
      (at_client 7 (written false) (at_client 7 (client_read eof) greeted.clients))
    ≡ 2 ∷ []
unfolding at_client written client_read
close_twice = refl
