-- ===== src/Exec/Rules.antt =====
-- Rules for `Ensures`, and what the memory operations return.
use dnswire.Prelude.{
  ℕ, ◌+◌, ◌≤◌, ◌≡◌, ◌⊎◌, inl, inr, refl, ◌++◌, length, take, drop, arith, length-append,
  length-take, length-drop,
}
use dnswire.Exec.{Fault, Exec, ret, fault, ◌>>=◌, Bytes, slice, store, Ensures, Allows}

pub Ensures->>= {ℓ κ} :
    {A : Type ℓ} {B : Type κ} (P : A → Type 0) (Q : B → Type 0) (m : Exec A) (f : A → Exec B)
    → Ensures P m
    → ((a : A) → P a → Ensures Q (f a))
    → Ensures Q (m >>= f)
Ensures->>= P Q (ret a) f h k = k a h
Ensures->>= P Q (fault e) f h k = absurd h

pub Ensures-mono {ℓ} :
    {A : Type ℓ} (P Q : A → Type 0) (m : Exec A) → Ensures P m → ((a : A) → P a → Q a) → Ensures Q m
Ensures-mono P Q (ret a) h k = k a h
Ensures-mono P Q (fault e) h k = absurd h

-- A call that ensures a property returns a value that has it.
pub Ensures-ret {ℓ} :
    {A : Type ℓ} (P : A → Type 0) (m : Exec A) → Ensures P m → (a : A) × (m ≡ ret a) × P a
Ensures-ret P (ret a) h = (a, refl, h)
Ensures-ret P (fault e) h = absurd h

-- What a call ensures, together with what it returns.
pub Ensures-eq :
    {A : Type 0} (P : A → Type 0) (m : Exec A) → Ensures P m → Ensures (λ a. P a × (m ≡ ret a)) m
Ensures-eq P (ret a) h = (h, refl)
Ensures-eq P (fault e) h = absurd h

pub slice_lem :
    (p : Bytes) (off n : ℕ) → off + n ≤ length p → slice p off n ≡ ret (take n (drop off p))
unfolding slice
slice_lem p off n h = ground arith

pub store_lem :
    (p : Bytes) (off : ℕ) (src : Bytes)
    → off + length src ≤ length p
    → store p off src ≡ ret (take off p ++ (src ++ drop (off + length src) p))
unfolding store
store_lem p off src h = ground arith

pub length_stored :
    (p : Bytes) (off : ℕ) (src : Bytes)
    → off + length src ≤ length p
    → length (take off p ++ (src ++ drop (off + length src) p)) ≡ length p
length_stored p off src h = omega (
  arith,
  length-append (take off p) (src ++ drop (off + length src) p),
  length-append src (drop (off + length src) p),
  length-take off p,
  length-drop (off + length src) p,
)

-- Nothing is asked of what comes first.
pub later {ℓ κ} :
    {A : Type ℓ} {B : Type κ} (P : B → Type 0) (m : Exec A) (f : A → Exec B)
    → ((a : A) → Allows P (f a))
    → Allows P (m >>= f)
later P (ret a) f k = k a
later P (fault e) f k = tt

pub of_ret {ℓ} :
    {A : Type ℓ} (P : A → Type 0) (m : Exec A) → ((a : A) → m ≡ ret a → P a) → Allows P m
of_ret P (ret a) h = h a refl
of_ret P (fault e) h = tt

pub Allows->>= {ℓ κ} :
    {A : Type ℓ} {B : Type κ} (P : A → Type 0) (Q : B → Type 0) (m : Exec A) (f : A → Exec B)
    → Allows P m
    → ((a : A) → P a → Allows Q (f a))
    → Allows Q (m >>= f)
Allows->>= P Q (ret a) f h k = k a h
Allows->>= P Q (fault e) f h k = tt

pub Allows-mono {ℓ} :
    {A : Type ℓ} (P Q : A → Type 0) (m : Exec A) → Allows P m → ((a : A) → P a → Q a) → Allows Q m
Allows-mono P Q (ret a) h k = k a h
Allows-mono P Q (fault e) h k = tt

pub Allows_of_Ensures {ℓ} :
    {A : Type ℓ} (P Q : A → Type 0) (m : Exec A) → Ensures P m → ((a : A) → P a → Q a) → Allows Q m
Allows_of_Ensures P Q (ret a) h k = k a h
Allows_of_Ensures P Q (fault e) h k = tt

pub Exec-cases {ℓ} :
    {A : Type ℓ} (m : Exec A) → ((a : A) × (m ≡ ret a)) ⊎ ((f : Fault) × (m ≡ fault f))
Exec-cases (ret a) = inl (a, refl)
Exec-cases (fault f) = inr (f, refl)

-- A call that returns, and returns nothing else, does both.
pub Ensures-Allows {ℓ} :
    {A : Type ℓ} (P Q : A → Type 0) (m : Exec A)
    → Ensures P m
    → Allows Q m
    → Ensures (λ a. P a × Q a) m
Ensures-Allows P Q (ret a) h k = (h, k)
Ensures-Allows P Q (fault e) h k = absurd h

pub Ensures-Both {ℓ} :
    {A : Type ℓ} (P Q : A → Type 0) (m : Exec A)
    → Ensures P m
    → Ensures Q m
    → Ensures (λ a. P a × Q a) m
Ensures-Both P Q (ret a) h k = (h, k)
Ensures-Both P Q (fault e) h k = absurd h
