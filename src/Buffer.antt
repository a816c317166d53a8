-- ===== src/Buffer.antt =====
-- The buffers of a reader and of a writer. `struct dnswire_reader` has the fields `buf`, `size`,
-- `inc`, `max`, `at` and `left`, and once more with the prefix `write_`; `struct dnswire_writer`
-- has them too, and once more with the prefix `read_`. One record stands for either group.
-- In a buffer that is read from, the pending bytes are the `left` bytes from `at` on; in one that
-- is written from, they are the `left` bytes before `at`.
pub mod Fill
pub mod Room
pub mod Resize
pub mod Drain
pub mod Grow
pub mod Valid
use dnswire.Prelude.{
  ℕ, ◌+◌, ◌*◌, Bool, true, false, Option, none, some, length, take, ltb, leb, ◌==◌, if◌then◌else◌,
}
use dnswire.Prelude.Size.{add_size, sub_size}
use dnswire.Exec.{Exec, ret, fault, ◌>>=◌, Bytes, deref, slice, store}
use dnswire.Alloc.{Allocator}

pub record Buffer : Type 0 where
  pub buf : Option Bytes
  pub size : ℕ
  pub inc : ℕ
  pub max : ℕ
  pub at : ℕ
  pub left : ℕ

-- DNSWIRE_DEFAULT_BUF_SIZE and DNSWIRE_MAXIMUM_BUF_SIZE
abbrev pub default_buf_size : ℕ
default_buf_size = 4 * 1024

abbrev pub maximum_buf_size : ℕ
maximum_buf_size = 64 * 1024

-- The defaults of either group of fields.
unfoldable pub defaults : Buffer
defaults = record {
  buf = none;
  size = default_buf_size;
  inc = default_buf_size;
  max = maximum_buf_size;
  at = 0;
  left = 0;
}

-- `size - at - left`, as the C code computes it.
unfoldable pub free_space : Buffer → ℕ
unfolding add_size sub_size
free_space b = sub_size (sub_size b.size b.at) b.left

-- How many of `len` bytes fit.
unfoldable pub fitting : Buffer → ℕ → ℕ
unfolding free_space
fitting b len = if ltb (free_space b) len then free_space b else len

-- Copy the first `n` bytes of `src` behind the pending ones.
unfoldable pub copy_in : Buffer → ℕ → Bytes → Exec Buffer
unfolding store add_size
copy_in b n src = if n == 0 then ret b else do
  p ← deref b.buf
  q ← store p (add_size b.at b.left) (take n src)
  ret (record b { buf = some q; left = add_size b.left n })

-- Store bytes behind the pending ones, and leave `left` as it is.
unfoldable pub place : Buffer → Bytes → Exec Buffer
unfolding store add_size
place b src = do
  p ← deref b.buf
  q ← store p (add_size b.at b.left) src
  ret (record b { buf = some q })

-- Copy in what fits; the number says how much.
unfoldable pub fill : Buffer → Bytes → Exec (ℕ × Buffer)
unfolding copy_in fitting
fill b src = do let n = fitting b (length src); c ← copy_in b n src; ret (n, c)

-- The pending bytes, as they are handed to the decoder.
unfoldable pub window : Buffer → Exec Bytes
unfolding slice
window b = do p ← deref b.buf; slice p b.at b.left

-- The decoder has consumed `n` bytes.
unfoldable pub consume : Buffer → ℕ → Buffer
unfolding add_size sub_size
consume b n = record b { at = add_size b.at n; left = sub_size b.left n }

-- `if (!left) { at = 0; }`
unfoldable pub rewind : Buffer → Buffer
rewind b = if b.left == 0 then record b { at = 0 } else b

-- Move the pending bytes to the start.
unfoldable pub compact : Buffer → Exec Buffer
unfolding slice store
compact b = if b.left == 0 then ret (record b { at = 0 }) else do
  p ← deref b.buf
  w ← slice p b.at b.left
  q ← store p 0 w
  ret (record b { buf = some q; at = 0 })

-- The size that a buffer grows to.
unfoldable pub grown : Buffer → ℕ
unfolding add_size
grown b = if ltb b.max (add_size b.size b.inc) then b.max else add_size b.size b.inc

-- `none` is a failed `realloc`, which leaves the buffer as it was.
unfoldable pub resize : Allocator → Buffer → ℕ → Option Buffer
resize al b n = elim (al.realloc b.buf n) [
  | none ↦ none
  | some p ↦ some (record b { buf = some p; size = n })
]

-- More data is needed: make room for it. `none` is an error, with the buffer as it was.
unfoldable pub make_room : Allocator → Buffer → Exec (Option Buffer)
make_room al b =
    if ltb b.left b.size
    then (if b.at == 0 then ret (some b) else do c ← compact b; ret (some c))
    else if ltb b.size b.max
    then ret (resize al b (grown b))
    else ret none

-- The first `n` pending bytes of a buffer that is written from.
unfoldable pub head : Buffer → ℕ → Exec Bytes
unfolding slice sub_size
head b n = do p ← deref b.buf; slice p (sub_size b.at b.left) n

-- `n` pending bytes are written.
unfoldable pub drain : Buffer → ℕ → Buffer
unfolding sub_size
drain b n = let l = sub_size b.left n in record b { left = l; at = if l == 0 then 0 else b.at }

-- The encoder stores `out` from `at` on.
unfoldable pub scribble : Buffer → Bytes → Exec Buffer
unfolding store
scribble b out = do p ← deref b.buf; q ← store p b.at out; ret (record b { buf = some q })

-- The encoder reports `n` bytes.
unfoldable pub advance : Buffer → ℕ → Buffer
unfolding add_size
advance b n = record b { at = add_size b.at n; left = add_size b.left n }

-- `set_bufsize`; `false` is an error. A failed `realloc` comes after the pending bytes are moved.
unfoldable pub set_size : Allocator → Buffer → ℕ → Exec (Bool × Buffer)
set_size al b n =
    if ltb n b.left then ret (false, b) else if ltb b.max n then ret (false, b) else do
      c ← (if ltb n (add_size b.at b.left) then compact b else ret b)
      elim (resize al c n) [ none ↦ ret (false, c) | some d ↦ ret (true, d) ]

unfoldable pub set_inc : Buffer → ℕ → Bool × Buffer
set_inc b n = (true, record b { inc = n })

unfoldable pub set_max : Buffer → ℕ → Bool × Buffer
set_max b n = if ltb n b.size then (false, b) else (true, record b { max = n })
