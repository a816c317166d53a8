-- ===== src/Trace.antt =====
-- `__printable_string` of src/trace.c: data as text in a buffer of 512 bytes. `isprint` is the C library's,
-- which depends on the locale.
pub mod Text
use dnswire.Prelude.{
  ℕ, ◌+◌, ◌-◌, ◌/◌, ◌%◌, Bool, [], ◌∷◌, ◌++◌, Option, none, some, ltb, leb, if◌then◌else◌,
}
use dnswire.Exec.{Exec, ret, ◌>>=◌, Bytes, store}

-- `sizeof(buf)`
abbrev pub buf_size : ℕ
buf_size = 512

-- A digit of `%02x`.
unfoldable pub hex_digit : ℕ → ℕ
hex_digit d = if ltb d 10 then b'0' + d else b'a' + (d - 10)

-- What `sprintf` stores for `\\x%02x`, without the zero byte at its end. 92 is the backslash.
unfoldable pub escaped : ℕ → Bytes
unfolding hex_digit
escaped c = 92 ∷ b'x' ∷ hex_digit (c / 16) ∷ hex_digit (c % 16) ∷ []

module _ (isprint : ℕ → Bool) where
  -- What is stored for a byte where `w` bytes are stored already, and by how much `w` grows; `none`
  -- is the `break`.
  unfoldable pub put : ℕ → ℕ → Option (Bytes × ℕ)
  unfolding escaped
  put w c =
      if isprint c
      then some (c ∷ [], 1)
      else if leb (buf_size - 1) (w + 4)
      then none
      else some (escaped c ++ (0 ∷ []), 4)

  -- The loop, which ends with `w` and the buffer.
  unfoldable pub put_all : Bytes → ℕ → Bytes → Exec (ℕ × Bytes)
  unfolding put store
  put_all [] w buf = ret (w, buf)
  put_all (c ∷ rest) w buf =
      if ltb w (buf_size - 1)
      then elim (put w c) [
        | none ↦ ret (w, buf)
        | some (bs, n) ↦ store buf w bs >>= λ b. put_all rest (w + n) b
      ]
      else ret (w, buf)

  -- `buf` is static: it holds what the last call left there.
  unfoldable pub printable_string : Bytes → Bytes → Exec Bytes
  unfolding put_all store
  printable_string src buf = do
    (w, b) ← put_all src 0 buf
    store b (if leb buf_size w then buf_size - 1 else w) (0 ∷ [])
