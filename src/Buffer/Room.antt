-- ===== src/Buffer/Room.antt =====
-- `make_room`: room behind the pending bytes of a buffer that is read from.
use dnswire.Prelude.{
  ℕ, ◌+◌, ◌≤◌, ◌<◌, ◌≡◌, refl, sym, ◌∙◌, ap, inl, inr, Option, none, some, ◌++◌, length, take, drop,
  arith, ltb, ◌==◌, Bool-cases, Option-cases, length-take, length-drop, take-append,
}
use dnswire.Prelude.Size.{add_size_exact}
use dnswire.Exec.{contents, Bytes, Ensures}
use dnswire.Exec.Rules.{Ensures->>=, slice_lem, store_lem, length_stored}
use dnswire.Alloc.{Allocator, IsAllocator}
use dnswire.Buffer.{Buffer, compact, resize, grown, make_room}
use dnswire.Buffer.Valid.{IsInput, Holds-cases, length-contents, unread, IsSized-with}

pub record Roomy (b : Buffer) (c : Buffer) : Type 0 where
  pub valid : IsInput c
  pub queue : unread c ≡ unread b
  pub amount : c.left ≡ b.left
  pub room : c.at + c.left < c.size
  pub at_start : c.at ≡ 0
  pub not_smaller : b.size ≤ c.size
  pub same_max : c.max ≡ b.max

abbrev pub RoomyOr : Buffer → Option Buffer → Type 0
RoomyOr b none = Unit
RoomyOr b (some c) = Roomy b c

compacted :
    (b : Buffer) (p : Bytes)
    → IsInput b
    → b.left < b.size
    → length p ≡ b.size
    → let w = take b.left (drop b.at p) in
      (length w ≡ b.left)
      × Roomy
          (record b { buf = some p })
          (record b { buf = some (take 0 p ++ (w ++ drop (0 + length w) p)); at = 0 })
compacted b p v h lp = (
  exact,
  record {
    valid = record {
      sized =
          IsSized-with v.sized (some moved) b.size (length_stored p 0 w fits ∙ lp) v.sized.nonempty
            v.sized.bounded;
      present = tt;
      inside = omega arith;
      rewound = λ _. refl;
    };
    queue =
        ap (λ k. take k moved) {x = b.left} {y = length w} (sym exact)
        ∙ take-append w (drop (0 + length w) p);
    amount = refl;
    room = omega arith;
    at_start = omega arith;
    not_smaller = omega arith;
    same_max = refl;
  },
)
  where
    w : Bytes
    w = take b.left (drop b.at p)

    moved : Bytes
    moved = take 0 p ++ (w ++ drop (0 + length w) p)

    exact : length w ≡ b.left
    exact = omega (arith, length-take b.left (drop b.at p), length-drop b.at p)

    fits : 0 + length w ≤ length p
    fits = omega (arith, exact)

pub compact_lem : (b : Buffer) → IsInput b → b.left < b.size → Ensures (Roomy b) (compact b)
unfolding compact
compact_lem b v h = elim (Bool-cases (b.left == 0)) [
  | inl e ↦
      let z : b.left ≡ 0 = ground arith in
      rw e (record {
        valid = record {
          sized =
              IsSized-with v.sized b.buf b.size v.sized.storage v.sized.nonempty v.sized.bounded;
          present = v.present;
          inside = omega arith;
          rewound = λ _. refl;
        };
        queue =
            ap (λ k. take k (contents b.buf)) {x = b.left} {y = 0} z
            ∙ ap (λ k. take k (drop b.at (contents b.buf))) {x = 0} {y = b.left} (sym z);
        amount = refl;
        room = omega arith;
        at_start = omega arith;
        not_smaller = omega arith;
        same_max = refl;
      })
  | inr e ↦
      let (p, eb, lp) = Holds-cases b.buf b.size v.sized.storage v.present in
      let (exact, done) = compacted b p v h lp in
      rw
        (
          e,
          eb,
          slice_lem p b.at b.left (omega arith),
          store_lem p 0 (take b.left (drop b.at p)) (omega arith),
        )
        done
]

grown-lt : (b : Buffer) → IsInput b → b.size < b.max → (b.size < grown b) × (grown b ≤ b.max)
unfolding grown
grown-lt b v h = rw (add_size_exact b.size b.inc (omega arith)) (ground arith)

grown_block :
    (b : Buffer) (q : Bytes) (n : ℕ)
    → IsInput b
    → b.size < n
    → n ≤ b.max
    → b.left ≡ b.size
    → length q ≡ n
    → take b.left q ≡ take b.left (contents b.buf)
    → Roomy b (record b { buf = some q; size = n })
grown_block b q n v h k full lq keeps = record {
  valid = record {
    sized = IsSized-with v.sized (some q) n lq (omega arith) k;
    present = tt;
    inside = omega arith;
    rewound = v.rewound;
  };
  queue = start q ∙ keeps ∙ sym (start (contents b.buf));
  amount = refl;
  room = omega arith;
  at_start = omega arith;
  not_smaller = omega arith;
  same_max = refl;
}
  where
    start : (p : Bytes) → take b.left (drop b.at p) ≡ take b.left p
    start p = ap (λ a. take b.left (drop a p)) {x = b.at} {y = 0} (omega arith)

resize_lem :
    (al : Allocator) (b : Buffer) (n : ℕ)
    → IsAllocator al
    → IsInput b
    → b.size < n
    → n ≤ b.max
    → b.left ≡ b.size
    → RoomyOr b (resize al b n)
unfolding resize
resize_lem al b n laws v h k full = elim (Option-cases (al.realloc b.buf n)) [
  | inl e ↦ rw (e, resize) tt
  | inr (q, e) ↦
      rw (e, resize)
        (grown_block b q n v h k full (laws.realloc_length b.buf n e) (
          laws.realloc_keeps b.buf n b.left e (omega arith)
            (omega (arith, length-contents b.buf b.size v.sized.storage v.present))))
]

-- For a well-formed input buffer and an allocator that keeps the bytes of a block it moves, the
-- code for `dnswire_need_more` returns; it either gives up, or leaves a well-formed buffer with
-- the same unread bytes, at its start, and room for at least one more.
pub make_room_lem :
    (al : Allocator) (b : Buffer)
    → IsAllocator al
    → IsInput b
    → Ensures (RoomyOr b) (make_room al b)
unfolding make_room
make_room_lem al b laws v = elim (Bool-cases (ltb b.left b.size)) [
  | inl e ↦ elim (Bool-cases (b.at == 0)) [
    | inl z ↦
        rw (e, z)
          (record {
            valid = v;
            queue = refl;
            amount = refl;
            room = ground arith;
            at_start = ground arith;
            not_smaller = omega arith;
            same_max = refl;
          })
    | inr z ↦
        rw (e, z)
          (Ensures->>= (Roomy b) (RoomyOr b) (compact b) _ (compact_lem b v (ground arith))
            (λ c w. w))
  ]
  | inr e ↦ elim (Bool-cases (ltb b.size b.max)) [
    | inl z ↦
        let (up, top) = grown-lt b v (ground arith) in
        rw (e, z) (resize_lem al b (grown b) laws v up top (ground arith))
    | inr z ↦ rw (e, z) tt
  ]
]
