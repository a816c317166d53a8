-- ===== src/Buffer/Grow.antt =====
-- `resize` on a buffer that is written from.
use dnswire.Prelude.{
  ℕ, ◌-◌, ◌≤◌, ◌<◌, ◌≡◌, refl, sym, ◌∙◌, ap, inl, inr, Option, none, some, length, take, drop,
  arith, Option-cases, drop-take,
}
use dnswire.Prelude.Size.{add_size_exact}
use dnswire.Exec.{Bytes, contents}
use dnswire.Alloc.{Allocator, IsAllocator}
use dnswire.Buffer.{Buffer, grown, resize}
use dnswire.Buffer.Valid.{IsPresent, IsSized, IsOutput, length-contents, unsent, IsSized-with}

pub record Enlarged (b : Buffer) (c : Buffer) : Type 0 where
  pub valid : IsOutput c
  pub present : IsPresent c.buf
  pub queue : unsent c ≡ unsent b
  pub same_at : c.at ≡ b.at
  pub same_left : c.left ≡ b.left
  pub same_max : c.max ≡ b.max
  pub larger : b.size < c.size

abbrev pub EnlargedOr : Buffer → Option Buffer → Type 0
EnlargedOr b none = Unit
EnlargedOr b (some c) = Enlarged b c

pub grown_bounds :
    (b : Buffer) → IsSized b → b.size < b.max → (b.size < grown b) × (grown b ≤ b.max)
unfolding grown
grown_bounds b v h = rw (add_size_exact b.size b.inc (omega arith)) (ground arith)

enlarged :
    (b : Buffer) (q : Bytes) (n : ℕ)
    → IsOutput b
    → b.size < n
    → n ≤ b.max
    → length q ≡ n
    → take b.at q ≡ take b.at (contents b.buf)
    → Enlarged b (record b { buf = some q; size = n })
enlarged b q n v h k lq keeps = record {
  valid = record {
    sized = IsSized-with v.sized (some q) n lq (omega arith) k;
    behind = v.behind;
    inside = omega arith;
    rewound = v.rewound;
  };
  present = tt;
  queue = sym (window q) ∙ ap (λ p. drop (b.at - b.left) p) keeps ∙ window (contents b.buf);
  same_at = refl;
  same_left = refl;
  same_max = refl;
  larger = h;
}
  where
    window : (p : Bytes) → drop (b.at - b.left) (take b.at p) ≡ take b.left (drop (b.at - b.left) p)
    window p =
        drop-take (b.at - b.left) b.at p (omega arith)
        ∙ ap (λ k. take k (drop (b.at - b.left) p)) {x = b.at - (b.at - b.left)} {y = b.left}
            (omega arith)

pub resize-Enlarged :
    (al : Allocator) (b : Buffer)
    → IsAllocator al
    → IsOutput b
    → IsPresent b.buf
    → b.size < b.max
    → EnlargedOr b (resize al b (grown b))
unfolding resize
resize-Enlarged al b laws v i h = elim (Option-cases (al.realloc b.buf (grown b))) [
  | inl e ↦ rw (e, resize) tt
  | inr (q, e) ↦
      let (up, top) = grown_bounds b v.sized h in
      rw (e, resize)
        (enlarged b q (grown b) v up top (laws.realloc_length b.buf (grown b) e) (
          laws.realloc_keeps b.buf (grown b) b.at e (omega arith)
            (omega (arith, length-contents b.buf b.size v.sized.storage i))))
]
