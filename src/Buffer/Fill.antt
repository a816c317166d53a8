-- ===== src/Buffer/Fill.antt =====
-- A buffer that is read from, seen as a queue of bytes: `fill`, `window` and `consume`.
use dnswire.Prelude.{
  ℕ, ◌+◌, ◌-◌, ◌≤◌, ◌<◌, ◌≡◌, refl, sym, ◌∙◌, ap, false, some, ◌++◌, length, take, drop, arith,
  ◌==◌, Bool-cases, inl, inr, length-take, length-drop, take-append, take-append_add,
  drop-append_le, drop-take, drop-drop,
}
use Prim.Native.Nat.{min}
use mathlib.Core.List.{append-nil}
use dnswire.Prelude.Size.{size_mod, add_size_exact, sub_size_exact}
use dnswire.Exec.{contents, ret, Bytes, Ensures}
use dnswire.Exec.Rules.{Ensures->>=, slice_lem, store_lem, length_stored}
use dnswire.Buffer.{Buffer, fitting, copy_in, fill, window, consume, rewind}
use dnswire.Buffer.Valid.{IsInput, Holds-cases, length-contents, unread, IsSized-with}

-- What a store right behind the pending bytes does to them.
pub unread_stored :
    (p src : Bytes) (a l : ℕ)
    → a + l + length src ≤ length p
    → take (l + length src) (drop a (take (a + l) p ++ (src ++ drop (a + l + length src) p)))
      ≡ take l (drop a p) ++ src
unread_stored p src a l h =
    rw
      (
        drop-append_le a (take (a + l) p) (src ++ drop (a + l + length src) p) enough,
        drop-take a (a + l) p (omega arith),
        shrink,
      )
      (ap (λ k. take (k + length src) (xs ++ (src ++ rest))) {x = l} {y = length xs} (sym exact)
        ∙ take-append_add (length src) xs (src ++ rest)
        ∙ ap (λ t. xs ++ t) (take-append src rest))
  where
    xs : Bytes
    xs = take l (drop a p)

    rest : Bytes
    rest = drop (a + l + length src) p

    enough : a ≤ length (take (a + l) p)
    enough = omega (arith, length-take (a + l) p)

    shrink : a + l - a ≡ l
    shrink = omega arith

    exact : length xs ≡ l
    exact = omega (arith, length-take l (drop a p), length-drop a p)

-- The number that fits is the smaller of the room and the bytes given.
pub fitting_lem :
    (b : Buffer) (len : ℕ)
    → IsInput b
    → len < size_mod
    → fitting b len ≡ min (b.size - b.at - b.left) len
unfolding fitting
fitting_lem b len v h = ground arith

-- The pending bytes after `copy_in`: those before, and then the first `n` bytes of the source.
pub record CopiedIn (b : Buffer) (n : ℕ) (src : Bytes) (c : Buffer) : Type 0 where
  pub valid : IsInput c
  pub queue : unread c ≡ unread b ++ take n src
  pub amount : c.left ≡ b.left + n

copied :
    (b : Buffer) (p : Bytes) (n : ℕ) (src : Bytes)
    → IsInput b
    → (n == 0) ≡ false
    → length (take n src) ≡ n
    → length p ≡ b.size
    → b.at + b.left + length (take n src) ≤ length p
    → CopiedIn
        (record b { buf = some p })
        n
        src
        (record b {
          buf = some (
              take (b.at + b.left) p
              ++ (take n src ++ drop (b.at + b.left + length (take n src)) p));
          left = b.left + n;
        })
copied b p n src v e lt lp ok = record {
  valid = record {
    sized =
        IsSized-with v.sized (some stored) b.size
          (length_stored p (b.at + b.left) (take n src) ok ∙ lp) v.sized.nonempty v.sized.bounded;
    present = tt;
    inside = omega arith;
    rewound = λ z. let z' : n ≡ 0 = omega arith in absurd (ground arith);
  };
  queue =
      ap (λ k. take (b.left + k) (drop b.at stored)) {x = n} {y = length (take n src)} (sym lt)
      ∙ unread_stored p (take n src) b.at b.left ok;
  amount = refl;
}
  where
    stored : Bytes
    stored = take (b.at + b.left) p ++ (take n src ++ drop (b.at + b.left + length (take n src)) p)

pub copy_in_lem :
    (b : Buffer) (n : ℕ) (src : Bytes)
    → IsInput b
    → n ≤ length src
    → b.at + b.left + n ≤ b.size
    → Ensures (CopiedIn b n src) (copy_in b n src)
unfolding copy_in
copy_in_lem b n src v h k = elim (Bool-cases (n == 0)) [
  | inl e ↦ rw e (
      let z : n ≡ 0 = ground arith in
      rw z (record { valid = v; queue = sym (append-nil (unread b)); amount = omega arith }))
  | inr e ↦
      let (p, eb, lp) = Holds-cases b.buf b.size v.sized.storage v.present in
      let lt : length (take n src) ≡ n = omega (arith, length-take n src) in
      let ok : b.at + b.left + length (take n src) ≤ length p = omega arith in
      rw
        (
          e,
          eb,
          add_size_exact b.at b.left (omega arith),
          store_lem p (b.at + b.left) (take n src) ok,
          add_size_exact b.left n (omega arith),
        )
        (copied b p n src v e lt lp ok)
]

-- `fill` copies in the bytes that fit, behind the pending ones.
pub record Filled (b : Buffer) (src : Bytes) (out : ℕ × Buffer) : Type 0 where
  pub count : out.0 ≡ min (b.size - b.at - b.left) (length src)
  pub valid : IsInput out.1
  pub queue : unread out.1 ≡ unread b ++ take out.0 src
  pub amount : out.1.left ≡ b.left + out.0

-- For a well-formed input buffer and fewer than 2^64 bytes `src`, `fill` returns: it copies
-- `min(size - at - left, length src)` bytes, the queue of unread bytes is the old one followed by
-- these, and the buffer is well formed.
pub fill_lem :
    (b : Buffer) (src : Bytes)
    → IsInput b
    → length src < size_mod
    → Ensures (Filled b src) (fill b src)
unfolding fill
fill_lem b src v h =
    let e : fitting b (length src) ≡ min (b.size - b.at - b.left) (length src) =
      fitting_lem b (length src) v h in
    Ensures->>= (CopiedIn b (fitting b (length src)) src) (Filled b src)
      (copy_in b (fitting b (length src)) src) _
      (copy_in_lem b (fitting b (length src)) src v (omega arith) (omega arith))
      λ c w. record { count = e; valid = w.valid; queue = w.queue; amount = w.amount }

-- `consume` drops bytes from the front, if they are there.
pub record Consumed (b : Buffer) (n : ℕ) (c : Buffer) : Type 0 where
  pub valid : IsInput c
  pub queue : unread c ≡ drop n (unread b)
  pub amount : c.left + n ≡ b.left

pub dropped :
    (b : Buffer) (n : ℕ)
    → n ≤ b.left
    → drop n (unread b) ≡ take (b.left - n) (drop (b.at + n) (contents b.buf))
dropped b n h =
    drop-take n b.left (drop b.at (contents b.buf)) h
    ∙ ap (λ t. take (b.left - n) t) (drop-drop n b.at (contents b.buf))

-- For a well-formed input buffer and at most `left` bytes, moving `at` and `left` on by `n` and
-- then rewinding an empty buffer drops the first `n` bytes of the queue and leaves a well-formed
-- buffer.
pub consume_lem :
    (b : Buffer) (n : ℕ) → IsInput b → n ≤ b.left → Consumed b n (rewind (consume b n))
unfolding consume rewind
consume_lem b n v h =
    rw (add_size_exact b.at n (omega arith), sub_size_exact b.left n h (omega arith))
      (elim (Bool-cases (b.left - n == 0)) [
        | inl e ↦
            let z : b.left - n ≡ 0 = ground arith in
            rw (e, z)
              (record {
                valid = record {
                  sized =
                      IsSized-with v.sized b.buf b.size v.sized.storage v.sized.nonempty
                        v.sized.bounded;
                  present = v.present;
                  inside = omega arith;
                  rewound = λ _. refl;
                };
                queue = sym (rw z at (dropped b n h));
                amount = omega arith;
              })
        | inr e ↦ rw e (record {
          valid = record {
            sized =
                IsSized-with v.sized b.buf b.size v.sized.storage v.sized.nonempty v.sized.bounded;
            present = v.present;
            inside = omega arith;
            rewound = λ z. absurd (ground arith);
          };
          queue = sym (dropped b n h);
          amount = omega arith;
        })
      ])

-- The decoder is handed the pending bytes, all of them.
pub window_lem : (b : Buffer) → IsInput b → window b ≡ ret (unread b)
unfolding window
window_lem b v =
    let (p, eb, lp) = Holds-cases b.buf b.size v.sized.storage v.present in
    rw (eb, slice_lem p b.at b.left (omega arith))

pub length-unread : (b : Buffer) → IsInput b → length (unread b) ≡ b.left
length-unread b v = omega (
  arith,
  length-take b.left (drop b.at (contents b.buf)),
  length-drop b.at (contents b.buf),
  length-contents b.buf b.size v.sized.storage v.present,
)
