-- ===== src/Alloc.antt =====
-- `malloc` and `realloc` of the C library, as the argument of the calls that allocate. A function
-- stands for what the heap answers during one call of the library; another call may have another.
use dnswire.Prelude.{ℕ, ◌≤◌, ◌≡◌, Option, some, length, take}
use dnswire.Exec.{Bytes, contents}

-- `none` is a null result. The bytes of a new block, and those past the old end of a block that
-- grows, are any bytes at all.
pub record Allocator : Type 0 where
  pub malloc : ℕ → Option Bytes
  pub realloc : Option Bytes → ℕ → Option Bytes

-- What the C standard says of a result that is not null.
pub record IsAllocator (al : Allocator) : Type 0 where
  pub malloc_length : (n : ℕ) {p : Bytes} → al.malloc n ≡ some p → length p ≡ n
  pub realloc_length :
      (p : Option Bytes) (n : ℕ) {q : Bytes} → al.realloc p n ≡ some q → length q ≡ n
  pub realloc_keeps :
      (p : Option Bytes) (n k : ℕ) {q : Bytes}
      → al.realloc p n ≡ some q
      → k ≤ n
      → k ≤ length (contents p)
      → take k q ≡ take k (contents p)
