-- ===== src/Print.antt =====
-- `printable_string` of examples/print_dnstap.c, which the examples have in place of
-- `__printable_string`: it writes the two digits itself.
pub mod Same
pub mod Message
pub mod Steps
pub mod Safe
use dnswire.Prelude.{
  ℕ, ◌+◌, ◌-◌, ◌/◌, ◌%◌, Bool, [], ◌∷◌, Option, none, some, ltb, leb, if◌then◌else◌,
}
use dnswire.Exec.{Exec, ret, ◌>>=◌, Bytes, store}
use dnswire.Trace.{buf_size}

-- `if (hex > 9) { ... } else { ... }`
unfoldable pub hex_char : ℕ → ℕ
hex_char hex = if ltb 9 hex then b'a' + (hex - 10) else b'0' + hex

-- The four bytes that are stored one after another, the digits from `(c & 0xf0) >> 4` and
-- `c & 0xf`. 92 is the backslash.
unfoldable pub hex_text : ℕ → Bytes
unfolding hex_char
hex_text c = 92 ∷ b'x' ∷ hex_char ((c / 16) % 16) ∷ hex_char (c % 16) ∷ []

module _ (isprint : ℕ → Bool) where
  -- What is stored for a byte where `w` bytes are stored already; `none` is the `break`.
  unfoldable pub put : ℕ → ℕ → Option (Bytes × ℕ)
  unfolding hex_text
  put w c =
      if isprint c
      then some (c ∷ [], 1)
      else if leb (buf_size - 1) (w + 4)
      then none
      else some (hex_text c, 4)

  -- The loop, which ends with `w` and the buffer.
  unfoldable pub put_all : Bytes → ℕ → Bytes → Exec (ℕ × Bytes)
  unfolding put store
  put_all [] w buf = ret (w, buf)
  put_all (c ∷ rest) w buf =
      if ltb w (buf_size - 1)
      then elim (put w c) [
        | none ↦ ret (w, buf)
        | some (bs, n) ↦ store buf w bs >>= λ b. put_all rest (w + n) b
      ]
      else ret (w, buf)

  unfoldable pub printable_string : Bytes → Bytes → Exec Bytes
  unfolding put_all store
  printable_string src buf = do
    (w, b) ← put_all src 0 buf
    store b (if leb buf_size w then buf_size - 1 else w) (0 ∷ [])
