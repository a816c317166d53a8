-- ===== src/Exec.antt =====
-- What a C call does here: it returns a value, or it meets a fault. A failed `assert` aborts the
-- program; an access out of bounds or through a null or dangling pointer is undefined behaviour. A loop whose
-- fuel is used up faults too, so a theorem that a call returns also says that its loops end.
pub mod Rules
use dnswire.Prelude.{
  ℕ, ◌+◌, Bool, true, false, List, [], ◌++◌, Option, none, some, length, take, drop, leb,
  if◌then◌else◌,
}

pub data Fault : Type 0 where
  assertion out_of_bounds null_pointer dangling no_fuel : Fault

pub data Exec {ℓ} (A : Type ℓ) : Type ℓ where
  ret : A → Exec A
  fault : Fault → Exec A

infixl 5 ◌>>=◌ ◌>>◌
abbrev pub ◌>>=◌ {ℓ κ} : {A : Type ℓ} {B : Type κ} → Exec A → (A → Exec B) → Exec B
ret a >>= f = f a
fault e >>= f = fault e

abbrev pub ◌>>◌ {ℓ} : {B : Type ℓ} → Exec (Unit {0}) → Exec B → Exec B
m >> k = m >>= λ _. k

abbrev pub assert : Bool → Exec (Unit {0})
assert true = ret tt
assert false = fault assertion

abbrev pub Bytes : Type 0
Bytes = List ℕ

-- The array behind a pointer that may be null.
abbrev pub deref : Option Bytes → Exec Bytes
deref none = fault null_pointer
deref (some p) = ret p

abbrev pub contents : Option Bytes → Bytes
contents none = []
contents (some p) = p

-- The `n` bytes from `p + off`, as a source of `memcpy` or as an argument of a call.
unfoldable pub slice : Bytes → ℕ → ℕ → Exec Bytes
slice p off n = if leb (off + n) (length p) then ret (take n (drop off p)) else fault out_of_bounds

-- `memcpy(p + off, src, n)` for the `n` bytes of `src`.
unfoldable pub store : Bytes → ℕ → Bytes → Exec Bytes
store p off src =
    if leb (off + length src) (length p)
    then ret (take off p ++ (src ++ drop (off + length src) p))
    else fault out_of_bounds

-- The call returns, and what it returns has the property.
abbrev pub Ensures {ℓ} : {A : Type ℓ} → (A → Type 0) → Exec A → Type 0
Ensures P (ret a) = P a
Ensures P (fault e) = ⊥

-- If the call returns, what it returns has the property.
abbrev pub Allows {ℓ} : {A : Type ℓ} → (A → Type 0) → Exec A → Type 0
Allows P (ret a) = P a
Allows P (fault e) = Unit
