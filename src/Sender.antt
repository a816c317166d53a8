-- ===== src/Sender.antt =====
-- The loop of examples/sender.c, which writes one message and stops the stream.
pub mod Order
pub mod Rounds
pub mod Finish
pub mod Dangles
use dnswire.Exec.{Exec, ret, ◌>>=◌}
use dnswire.Prelude.{Bool, true, false, if◌then◌else◌}
use dnswire.Result.{Result, ok, again, endofdata}
use dnswire.Alloc.{Allocator}
use dnswire.Io.{Io}
use dnswire.Tinyframe.{Tinyframe}
use dnswire.Dnstap.{Protobuf}
use dnswire.Writer.{Writer, stop}
use dnswire.Writer.Write.{write}

-- How a round ends: with another one, or with `done` set after "stopped", "stopping failed!" or an
-- error of the writer.
pub data Outcome : Type 0 where
  go_on stopped stopping_failed failed : Outcome

abbrev pub is_ok : Result → Bool
is_ok ok = true
is_ok _ = false

module _ (t : Tinyframe) where
  unfoldable pub on_result : Result → Writer t → Outcome × Writer t
  on_result ok w = let y = stop t w in (if is_ok y.0 then go_on else stopping_failed, y.1)
  on_result again w = (go_on, w)
  on_result endofdata w = (stopped, w)
  on_result _ w = (failed, w)

  -- The body of `while (!done)`.
  unfoldable pub round : Protobuf → Allocator → Io → Io → Writer t → Exec (Outcome × Writer t)
  round pb al io io' w = do x ← write t pb al io io' w; ret (on_result x.0 x.1)
