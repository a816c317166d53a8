-- ===== src/Buffer/Resize.antt =====
-- `dnswire_reader_set_bufsize` of src/reader.c on the reader's buffer.
use dnswire.Prelude.{
  ℕ, ◌+◌, ◌-◌, ◌≤◌, ◌<◌, ◌≡◌, refl, sym, ◌∙◌, ap, Bool, true, false, inl, inr, none, some, length,
  take, drop, arith, ltb, Bool-cases, Option-cases, drop-take,
}
use dnswire.Prelude.Size.{add_size_exact}
use dnswire.Exec.{ret, contents, Bytes, Ensures, Allows, slice, store}
use dnswire.Exec.Rules.{Ensures->>=, Ensures-Allows}
use dnswire.Alloc.{Allocator, IsAllocator}
use dnswire.Buffer.{Buffer, compact, resize, set_size}
use dnswire.Buffer.Valid.{IsInput, length-contents, unread, IsSized-with}
use dnswire.Buffer.Room.{Roomy, compact_lem}

-- Whatever happens, no byte is lost; the call succeeds only for a size that fits, and then the
-- buffer has it.
pub record Resized (b : Buffer) (n : ℕ) (x : Bool × Buffer) : Type 0 where
  pub valid : IsInput x.1
  pub queue : unread x.1 ≡ unread b
  pub amount : x.1.left ≡ b.left
  pub done : x.0 ≡ true → (x.1.size ≡ n) × (b.left ≤ n) × (n ≤ b.max)
  pub refused : x.0 ≡ false → x.1.size ≡ b.size

-- The unread bytes stand among the first `at + left`.
unread_front :
    (b : Buffer) (q : Bytes)
    → take (b.at + b.left) q ≡ take (b.at + b.left) (contents b.buf)
    → take b.left (drop b.at q) ≡ unread b
unread_front b q h = sym (front q) ∙ ap (λ p. drop b.at p) h ∙ front (contents b.buf)
  where
    front : (p : Bytes) → drop b.at (take (b.at + b.left) p) ≡ take b.left (drop b.at p)
    front p =
        drop-take b.at (b.at + b.left) p (omega arith)
        ∙ ap (λ k. take k (drop b.at p)) {x = b.at + b.left - b.at} {y = b.left} (omega arith)

resized :
    (b c : Buffer) (q : Bytes) (n : ℕ)
    → IsInput c
    → unread c ≡ unread b
    → c.left ≡ b.left
    → c.max ≡ b.max
    → c.at + c.left ≤ n
    → 0 < n
    → n ≤ b.max
    → length q ≡ n
    → take (c.at + c.left) q ≡ take (c.at + c.left) (contents c.buf)
    → Resized b n (true, record c { buf = some q; size = n })
resized b c q n v u l m fit p top lq keeps = record {
  valid = record {
    sized = IsSized-with v.sized (some q) n lq p (omega arith);
    present = tt;
    inside = fit;
    rewound = v.rewound;
  };
  queue = unread_front c q keeps ∙ u;
  amount = l;
  done = λ h. (refl, omega arith, top);
  refused = λ h. cc;
}

resize_to :
    (al : Allocator) (b c : Buffer) (n : ℕ)
    → IsAllocator al
    → IsInput c
    → unread c ≡ unread b
    → c.left ≡ b.left
    → c.max ≡ b.max
    → c.size ≡ b.size
    → c.at + c.left ≤ n
    → 0 < n
    → n ≤ b.max
    → Ensures
        (Resized b n)
        (elim (resize al c n) [ none ↦ ret (false, c) | some d ↦ ret (true, d) ])
unfolding resize
resize_to al b c n laws v u l m z fit p top = elim (Option-cases (al.realloc c.buf n)) [
  | inl e ↦
      rw (e, resize) (record { valid = v; queue = u; amount = l; done = λ h. cc; refused = λ h. z })
  | inr (q, e) ↦
      rw (e, resize)
        (resized b c q n v u l m fit p top (laws.realloc_length c.buf n e) (
          laws.realloc_keeps c.buf n (c.at + c.left) e fit
            (omega (arith, v.inside, length-contents c.buf c.size v.sized.storage v.present))))
]

compact-size : (b : Buffer) → Allows (λ c. c.size ≡ b.size) (compact b)
unfolding compact slice store
compact-size b = ground arith

-- For a well-formed input buffer, an allocator that keeps the bytes of a block that it moves, and a
-- size above 0, `set_size` returns: the buffer is well formed with the same unread bytes; if it
-- succeeds, then these fit in the new size, which is at most `max`; if not, the size is the old one.
pub set_size_lem :
    (al : Allocator) (b : Buffer) (n : ℕ)
    → IsAllocator al
    → IsInput b
    → 0 < n
    → Ensures (Resized b n) (set_size al b n)
unfolding set_size
set_size_lem al b n laws v p = elim (Bool-cases (ltb n b.left)) [
  | inl e ↦
      rw e (record { valid = v; queue = refl; amount = refl; done = λ h. cc; refused = λ h. refl })
  | inr e ↦ elim (Bool-cases (ltb b.max n)) [
    | inl f ↦
        rw (e, f)
          (record { valid = v; queue = refl; amount = refl; done = λ h. cc; refused = λ h. refl })
    | inr f ↦ elim (Bool-cases (ltb n (b.at + b.left))) [
      | inl g ↦
          rw (e, f, add_size_exact b.at b.left (omega arith), g)
            (Ensures->>= (λ c. Roomy b c × (c.size ≡ b.size)) (Resized b n) (compact b) _
              (Ensures-Allows (Roomy b) (λ c. c.size ≡ b.size) (compact b)
                (compact_lem b v (ground arith)) (compact-size b))
              λ c (w, z).
                resize_to al b c n laws w.valid w.queue w.amount w.same_max z (ground arith) p
                  (ground arith))
      | inr g ↦
          rw (e, f, add_size_exact b.at b.left (omega arith), g)
            (resize_to al b b n laws v refl refl refl refl (ground arith) p (ground arith))
    ]
  ]
]
