-- ===== src/Io.antt =====
-- The system calls `read` and `write`, as an argument of the calls that make them. What a descriptor
-- answers is a function for one call of the library; another call may have another.
use dnswire.Prelude.{ℕ, ◌≤◌, ◌≡◌, Option, some, length}
use dnswire.Exec.{Bytes}

-- `none` is a negative result. `read` takes the room and gives the bytes that it stored; `write`
-- takes the bytes and gives how many it wrote.
pub record Io : Type 0 where
  pub read : ℕ → Option Bytes
  pub write : Bytes → Option ℕ

pub record IsIo (io : Io) : Type 0 where
  pub read_fits : (n : ℕ) {bs : Bytes} → io.read n ≡ some bs → length bs ≤ n
  pub write_fits : (w : Bytes) {k : ℕ} → io.write w ≡ some k → k ≤ length w
