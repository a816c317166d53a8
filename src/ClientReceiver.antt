-- ===== src/ClientReceiver.antt =====
-- `client_read` of examples/client_receiver_uv.c, which libuv calls with what it has read.
pub mod Steps
pub mod Rounds
pub mod Turns
pub mod Ends
pub mod Waits
pub mod Heard
use dnswire.Prelude.{
  ℕ, zero, suc, ◌+◌, ◌*◌, Bool, true, false, List, [], ◌∷◌, none, length, drop, ltb, if◌then◌else◌,
}
use dnswire.Prelude.Size.{add_size}
use dnswire.Exec.{Exec, ret, fault, no_fuel, ◌>>=◌, Bytes}
use dnswire.Result.{Result, again, need_more, have_dnstap, endofdata}
use dnswire.Alloc.{Allocator}
use dnswire.Tinyframe.{Tinyframe}
use dnswire.Dnstap.{Dnstap, Protobuf}
use dnswire.Reader.{Reader}
use dnswire.Reader.Push.{push}

-- `nread` and the buffer: the bytes that were read, UV_EOF, or another error.
pub data Nread : Type 0 where
  got : Bytes → Nread
  eof failed : Nread

-- What a call leaves: the global reader, whether it called `uv_close`, and the messages that it
-- printed, in order.
pub record Fed (t : Tinyframe) : Type 0 where
  pub reader : Reader t
  pub closed : Bool
  pub printed : List Dnstap

module _ (t : Tinyframe) where
  abbrev pub closing : Reader t → Fed t
  closing r = record { reader = r; closed = true; printed = [] }

  -- `print_dnstap`, and then the rest.
  abbrev pub print_before : Dnstap → Exec (Fed t) → Exec (Fed t)
  print_before d m = m >>= λ y. ret (record y { printed = d ∷ y.printed })

  -- The `switch` on what `dnswire_reader_push` returned; `next` is the next round of the loop.
  unfoldable pub on_pushed : Exec (Fed t) → Result → Reader t → Exec (Fed t)
  on_pushed next have_dnstap r = print_before r.decoder.dnstap next
  on_pushed next again r = next
  on_pushed next need_more r = next
  on_pushed next _ r = ret (closing r)

  module _ (pb : Protobuf) (al : Allocator) where
    -- `while (pushed < nread)`
    unfoldable pub feed : ℕ → Bytes → Reader t → ℕ → Exec (Fed t)
    unfolding on_pushed add_size
    feed zero bs r pushed = fault no_fuel
    feed (suc fuel) bs r pushed =
        let round = push t pb al r (drop pushed bs) none none >>= λ x.
        on_pushed (feed fuel bs x.reader (add_size pushed x.reader.pushed)) x.result x.reader in
        if ltb pushed (length bs)
        then round
        else ret (record { reader = r; closed = false; printed = [] })

    -- Three rounds for every byte to push, and two for every byte that waits, are enough.
    unfoldable pub rounds : Bytes → Reader t → ℕ
    rounds bs r = suc (3 * length bs + (2 * r.input.left + 1))

    unfoldable pub client_read : Nread → Reader t → Exec (Fed t)
    unfolding feed rounds
    client_read (got bs) r = feed (rounds bs r) bs r 0
    client_read eof r = ret (closing r)
    client_read failed r = ret (closing r)
