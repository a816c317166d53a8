-- ===== src/FileReader.antt =====
-- The loop of examples/reader.c, which prints the messages of a file. The loop of
-- examples/receiver.c on a socket has the same text, but for what it prints at the end.
pub mod Rounds
pub mod Ends
use dnswire.Prelude.{
  ℕ, zero, suc, ◌+◌, ◌*◌, Bool, true, false, List, [], ◌∷◌, Option, none, some, length, drop, take,
}
use dnswire.Exec.{Exec, ret, fault, no_fuel, ◌>>=◌, Bytes}
use dnswire.Result.{Result, again, need_more, have_dnstap, endofdata}
use dnswire.Alloc.{Allocator}
use dnswire.Io.{Io}
use dnswire.Tinyframe.{Tinyframe}
use dnswire.Dnstap.{Dnstap, Protobuf}
use dnswire.Reader.{Reader}
use dnswire.Reader.Read.{read}
use dnswire.Reader.Transfers.{received}

-- A file: how many of the bytes behind the offset a `read` with some room gives; `none` is an error.
pub record File : Type 0 where
  pub give : Bytes → ℕ → Option ℕ

-- The descriptor, with `rest` behind the offset.
abbrev pub opened : File → Bytes → Io
opened f rest = record {
  read = λ n. elim (f.give rest n) [ none ↦ none | some m ↦ some (take m rest) ];
  write = λ w. none;
}

-- How the loop ends: after `dnswire_endofdata`, or else after an error, with the messages that were
-- printed, in order, and what was not read of the file.
pub record Ended (t : Tinyframe) : Type 0 where
  pub reader : Reader t
  pub stopped : Bool
  pub printed : List Dnstap
  pub rest : Bytes

module _ (t : Tinyframe) where
  -- The `switch` on what `dnswire_reader_fread` returned; `next` is the next round.
  unfoldable pub on_read : Exec (Ended t) → Result → Reader t → Bytes → Exec (Ended t)
  on_read next have_dnstap r rest =
      next >>= λ y. ret (record y { printed = r.decoder.dnstap ∷ y.printed })
  on_read next again r rest = next
  on_read next need_more r rest = next
  on_read next endofdata r rest =
      ret (record { reader = r; stopped = true; printed = []; rest = rest })
  on_read next _ r rest = ret (record { reader = r; stopped = false; printed = []; rest = rest })

  module _ (pb : Protobuf) (al : Allocator) (f : File) where
    -- `while (!done)`
    unfoldable pub read_all : ℕ → Bytes → Reader t → Exec (Ended t)
    unfolding on_read
    read_all zero rest r = fault no_fuel
    read_all (suc fuel) rest r =
        let left = drop (length (received t (opened f rest) r)) rest in
        read t pb al (opened f rest) r >>= λ x. on_read (read_all fuel left x.1) x.0 x.1 left

    -- Three rounds for every byte of the file, and two for every byte in the buffer, are enough.
    unfoldable pub read_file : Bytes → Reader t → Exec (Ended t)
    read_file rest r = read_all (suc (3 * length rest + (2 * r.input.left + 1))) rest r
