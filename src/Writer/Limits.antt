-- ===== src/Writer/Limits.antt =====
-- `dnswire_writer_set_bufsize`, `set_bufinc` and `set_bufmax` of src/writer.c.
use dnswire.Prelude.{
  ℕ, ◌+◌, ◌-◌, ◌≤◌, ◌<◌, ◌≡◌, refl, sym, ap, ◌∙◌, Bool, true, false, inl, inr, none, some, take,
  drop, arith, ltb, ◌==◌, Bool-cases, Option-cases, drop-take,
}
use dnswire.Prelude.Size.{size_mod, add_size_exact}
use dnswire.Exec.{ret, contents, Bytes, Ensures}
use dnswire.Exec.Rules.{Ensures->>=}
use dnswire.Alloc.{Allocator, IsAllocator}
use dnswire.Buffer.{Buffer, resize, set_size, set_inc, set_max}
use dnswire.Buffer.Valid.{IsOutput, IsPresent, length-contents, unsent, IsSized-with}
use dnswire.Encoder.Loop.Ends.{is_set_of_IsPresent}
use dnswire.Result.{ok}
use dnswire.Tinyframe.{Tinyframe}
use dnswire.Writer.{Writer, set_bufsize, set_bufinc, set_bufmax}
use dnswire.Writer.Duplex.{IsDuplex}

-- The pending bytes stand among the first `at`.
unsent_front :
    (b : Buffer) (q : Bytes)
    → b.left ≤ b.at
    → take b.at q ≡ take b.at (contents b.buf)
    → take b.left (drop (b.at - b.left) q) ≡ unsent b
unsent_front b q h e = sym (front q) ∙ ap (λ p. drop (b.at - b.left) p) e ∙ front (contents b.buf)
  where
    front : (p : Bytes) → drop (b.at - b.left) (take b.at p) ≡ take b.left (drop (b.at - b.left) p)
    front p =
        drop-take (b.at - b.left) b.at p (omega arith)
        ∙ ap (λ k. take k (drop (b.at - b.left) p)) {x = b.at - (b.at - b.left)} {y = b.left}
            (omega arith)

-- What is left of a buffer that is written from.
pub record Kept (b : Buffer) (x : Bool × Buffer) : Type 0 where
  pub valid : IsOutput x.1
  pub present : IsPresent x.1.buf
  pub queue : unsent x.1 ≡ unsent b
  pub amount : x.1.left ≡ b.left

kept : (b : Buffer) → IsOutput b → IsPresent b.buf → Kept b (false, b)
kept b v i = record { valid = v; present = i; queue = refl; amount = refl }

resize-Kept :
    (al : Allocator) (b : Buffer) (n : ℕ)
    → IsAllocator al
    → IsOutput b
    → IsPresent b.buf
    → b.at ≤ n
    → 0 < n
    → n ≤ b.max
    → Ensures (Kept b) (elim (resize al b n) [ none ↦ ret (false, b) | some d ↦ ret (true, d) ])
unfolding resize
resize-Kept al b n laws v i fit p top = elim (Option-cases (al.realloc b.buf n)) [
  | inl e ↦ rw (e, resize) (kept b v i)
  | inr (q, e) ↦
      rw (e, resize)
        (record {
          valid = record {
            sized = IsSized-with v.sized (some q) n (laws.realloc_length b.buf n e) p top;
            behind = v.behind;
            inside = fit;
            rewound = v.rewound;
          };
          present = tt;
          queue = unsent_front b q v.behind (
              laws.realloc_keeps b.buf n b.at e fit
                (omega (arith, v.inside, length-contents b.buf b.size v.sized.storage i)));
          amount = refl;
        })
]

set_size-Kept :
    (al : Allocator) (b : Buffer) (n : ℕ)
    → IsAllocator al
    → IsOutput b
    → IsPresent b.buf
    → b.at + b.left ≤ n
    → 0 < n
    → Ensures (Kept b) (set_size al b n)
unfolding set_size
set_size-Kept al b n laws v i fit p = elim (Bool-cases (ltb n b.left)) [
  | inl e ↦ rw e (kept b v i)
  | inr e ↦ elim (Bool-cases (ltb b.max n)) [
    | inl f ↦ rw (e, f) (kept b v i)
    | inr f ↦
        let g : ltb n (b.at + b.left) ≡ false = ground arith in
        let top : n ≤ b.max = ground arith in
        rw (e, f, add_size_exact b.at b.left (omega (arith, v.sized.small)), g)
          (resize-Kept al b n laws v i (omega arith) p (ground arith))
  ]
]

module _ (t : Tinyframe) where
  -- An increment above 0 that keeps `max + inc` below 2^64.
  pub set_bufinc-IsDuplex :
      (w : Writer t) (n : ℕ)
      → IsDuplex t w
      → 0 < n
      → w.output.max + n < size_mod
      → Ensures (λ x. IsDuplex t x.1 × (x.0 ≡ ok)) (set_bufinc t w n)
  unfolding set_bufinc set_inc
  set_bufinc-IsDuplex w n v p h = ground (arith, v)

  -- A limit; one below the size is refused.
  pub set_bufmax-IsDuplex :
      (w : Writer t) (n : ℕ)
      → IsDuplex t w
      → 0 < n
      → n + w.output.inc < size_mod
      → Ensures (λ x. IsDuplex t x.1 × (x.0 ≡ ok → w.output.size ≤ n)) (set_bufmax t w n)
  unfolding set_bufmax set_max
  set_bufmax-IsDuplex w n v p h = ground (arith, v)

  -- A size for which nothing is moved.
  pub set_bufsize-IsDuplex :
      (al : Allocator) (w : Writer t) (n : ℕ)
      → IsAllocator al
      → IsDuplex t w
      → 0 < n
      → w.output.at + w.output.left ≤ n
      → Ensures (λ x. IsDuplex t x.1 × (unsent x.1.output ≡ unsent w.output)) (set_bufsize t al w n)
  unfolding set_bufsize
  set_bufsize-IsDuplex al w n laws v p fit =
      let positive : (n == 0) ≡ false = ground arith in
      rw (positive, is_set_of_IsPresent w.output.buf v.basic.present)
        (Ensures->>= (Kept w.output) _ (set_size al w.output n) _
          (set_size-Kept al w.output n laws v.basic.output v.basic.present fit p)
          λ x k. (ground (arith, v, k), k.queue))
