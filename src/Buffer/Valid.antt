-- ===== src/Buffer/Valid.antt =====
-- When a buffer is well formed.
use dnswire.Prelude.{
  ℕ, ◌+◌, ◌-◌, ◌≤◌, ◌<◌, ◌≡◌, refl, Option, none, some, length, take, drop, arith,
}
use dnswire.Prelude.Size.{size_mod}
use dnswire.Exec.{Bytes, contents}
use dnswire.Buffer.{Buffer, defaults}

-- The pointer is null or to an array of `n` bytes.
abbrev pub Holds : Option Bytes → ℕ → Type 0
Holds none n = Unit
Holds (some p) n = length p ≡ n

abbrev pub IsPresent : Option Bytes → Type 0
IsPresent none = ⊥
IsPresent (some p) = Unit

-- The bytes that wait in a buffer that is read from, and in one that is written from.
abbrev pub unread : Buffer → Bytes
unread b = take b.left (drop b.at (contents b.buf))

abbrev pub unsent : Buffer → Bytes
unsent b = take b.left (drop (b.at - b.left) (contents b.buf))

pub Holds-cases :
    (o : Option Bytes) (n : ℕ)
    → Holds o n
    → IsPresent o
    → (p : Bytes) × (o ≡ some p) × (length p ≡ n)
Holds-cases none n h i = absurd i
Holds-cases (some p) n h i = (p, refl, h)

pub length-contents : (o : Option Bytes) (n : ℕ) → Holds o n → IsPresent o → length (contents o) ≡ n
length-contents none n h i = absurd i
length-contents (some p) n h i = h

-- The limits make sense, and neither `size + inc` nor an index wraps.
pub record IsSized (b : Buffer) : Type 0 where
  pub storage : Holds b.buf b.size
  pub nonempty : 0 < b.size
  pub grows : 0 < b.inc
  pub bounded : b.size ≤ b.max
  pub small : b.max + b.inc < size_mod

-- The limits still make sense for another block, wherever the bytes in it are.
pub IsSized-with :
    {b : Buffer}
    → IsSized b
    → (o : Option Bytes) (n : ℕ) → Holds o n
    → 0 < n
    → n ≤ b.max
    → {a l : ℕ} → IsSized (record b { buf = o; size = n; at = a; left = l })
IsSized-with v o n h p q = record {
  storage = h;
  nonempty = p;
  grows = v.grows;
  bounded = q;
  small = v.small;
}

-- A buffer that is read from.
pub record IsInput (b : Buffer) : Type 0 where
  pub sized : IsSized b
  pub present : IsPresent b.buf
  pub inside : b.at + b.left ≤ b.size
  pub rewound : b.left ≡ 0 → b.at ≡ 0

-- A buffer that is written from.
pub record IsOutput (b : Buffer) : Type 0 where
  pub sized : IsSized b
  pub behind : b.left ≤ b.at
  pub inside : b.at ≤ b.size
  pub rewound : b.left ≡ 0 → b.at ≡ 0

pub defaults-IsOutput : IsOutput defaults
unfolding defaults
defaults-IsOutput = ground arith
