-- ===== src/Buffer/Drain.antt =====
-- A buffer that is written from, seen as a queue of bytes: what the encoder stores, and what leaves.
use dnswire.Prelude.{
  ℕ, ◌+◌, ◌-◌, ◌≤◌, ◌≡◌, refl, sym, ◌∙◌, ap, inl, inr, some, ◌++◌, length, take, drop, arith, ◌==◌,
  Bool-cases, length-take, length-drop, take-take, take-append_le, drop-append_le, drop-take,
  drop-drop,
}
use dnswire.Prelude.Size.{add_size_exact, sub_size_exact}
use dnswire.Exec.{ret, Bytes, Ensures, contents}
use dnswire.Exec.Rules.{slice_lem, store_lem, length_stored}
use dnswire.Buffer.{Buffer, head, drain, scribble, advance}
use dnswire.Buffer.Fill.{unread_stored}
use dnswire.Buffer.Valid.{IsPresent, IsOutput, Holds-cases, length-contents, unsent, IsSized-with}

-- What leaves the buffer next.
pub head_lem :
    (b : Buffer) (n : ℕ)
    → IsOutput b
    → IsPresent b.buf
    → n ≤ b.left
    → head b n ≡ ret (take n (unsent b))
unfolding head
head_lem b n v i h =
    let (p, eb, lp) = Holds-cases b.buf b.size v.sized.storage i in
    rw
      (
        eb,
        sub_size_exact b.at b.left v.behind (omega arith),
        slice_lem p (b.at - b.left) n (omega arith),
      )
      (ap ret (sym (take-take n b.left (drop (b.at - b.left) p) h)))

pub record Drained (b : Buffer) (n : ℕ) (c : Buffer) : Type 0 where
  pub valid : IsOutput c
  pub present : IsPresent c.buf
  pub queue : unsent c ≡ drop n (unsent b)
  pub amount : c.left + n ≡ b.left

left_over :
    (b : Buffer) (n : ℕ)
    → IsOutput b
    → n ≤ b.left
    → drop n (unsent b) ≡ take (b.left - n) (drop (b.at - (b.left - n)) (contents b.buf))
left_over b n v h =
    drop-take n b.left (drop (b.at - b.left) (contents b.buf)) h
    ∙ ap (λ t. take (b.left - n) t) (drop-drop n (b.at - b.left) (contents b.buf))
    ∙ ap (λ k. take (b.left - n) (drop k (contents b.buf))) {x = b.at - b.left + n}
        {y = b.at - (b.left - n)} (omega arith)

-- For a well-formed output buffer with a block, and `n` at most `left`, the bytes that remain
-- after `n` are taken are the pending ones without the first `n`, `left` is `n` less, and the
-- buffer is well formed.
pub drain_lem :
    (b : Buffer) (n : ℕ) → IsOutput b → IsPresent b.buf → n ≤ b.left → Drained b n (drain b n)
unfolding drain
drain_lem b n v i h =
    rw (sub_size_exact b.left n h (omega arith)) (elim (Bool-cases (b.left - n == 0)) [
      | inl e ↦
          let z : b.left - n ≡ 0 = ground arith in
          rw (e, z)
            (record {
              valid = record {
                sized =
                    IsSized-with v.sized b.buf b.size v.sized.storage v.sized.nonempty
                      v.sized.bounded;
                behind = omega arith;
                inside = omega arith;
                rewound = λ _. refl;
              };
              present = i;
              queue = sym (rw z at (left_over b n v h));
              amount = omega arith;
            })
      | inr e ↦ rw e (record {
        valid = record {
          sized =
              IsSized-with v.sized b.buf b.size v.sized.storage v.sized.nonempty v.sized.bounded;
          behind = omega arith;
          inside = v.inside;
          rewound = λ z. absurd (ground arith);
        };
        present = i;
        queue = sym (left_over b n v h);
        amount = omega arith;
      })
    ])

-- A store of the encoder leaves what is pending alone; once it is reported it is pending too.
pub record Scribbled (b : Buffer) (out : Bytes) (c : Buffer) : Type 0 where
  pub valid : IsOutput c
  pub present : IsPresent c.buf
  pub same_at : c.at ≡ b.at
  pub same_left : c.left ≡ b.left
  pub same_size : c.size ≡ b.size
  pub same_max : c.max ≡ b.max
  pub kept : unsent c ≡ unsent b
  pub reported : unsent (advance c (length out)) ≡ unsent b ++ out

scribbled :
    (b : Buffer) (p out : Bytes)
    → IsOutput b
    → length p ≡ b.size
    → b.at + length out ≤ length p
    → Scribbled
        (record b { buf = some p })
        out
        (record b { buf = some (take b.at p ++ (out ++ drop (b.at + length out) p)) })
unfolding advance
scribbled b p out v lp ok = record {
  valid = record {
    sized =
        IsSized-with v.sized (some q) b.size (length_stored p b.at out ok ∙ lp) v.sized.nonempty
          v.sized.bounded;
    behind = v.behind;
    inside = v.inside;
    rewound = v.rewound;
  };
  present = tt;
  same_at = refl;
  same_left = refl;
  same_size = refl;
  same_max = refl;
  kept =
      ap (λ t. take b.left t)
        (drop-append_le (b.at - b.left) (take b.at p) (out ++ drop (b.at + length out) p) before)
      ∙ take-append_le b.left (drop (b.at - b.left) (take b.at p))
          (out ++ drop (b.at + length out) p) enough
      ∙ ap (λ t. take b.left t) (drop-take (b.at - b.left) b.at p (omega arith))
      ∙ take-take b.left (b.at - (b.at - b.left)) (drop (b.at - b.left) p) (omega arith);
  reported =
      rw
        (
          add_size_exact b.at (length out) (omega arith),
          add_size_exact b.left (length out) (omega arith),
        )
        (ap (λ k. take (b.left + length out) (drop k q))
            {x = b.at + length out - (b.left + length out)} {y = b.at - b.left} (omega arith)
          ∙ ap
              (λ k.
                take (b.left + length out)
                  (drop (b.at - b.left) (take k p ++ (out ++ drop (k + length out) p))))
              {x = b.at} {y = b.at - b.left + b.left} (omega arith)
          ∙ unread_stored p out (b.at - b.left) b.left (omega arith));
}
  where
    q : Bytes
    q = take b.at p ++ (out ++ drop (b.at + length out) p)

    before : b.at - b.left ≤ length (take b.at p)
    before = omega (arith, length-take b.at p)

    enough : b.left ≤ length (drop (b.at - b.left) (take b.at p))
    enough = omega (arith, length-take b.at p, length-drop (b.at - b.left) (take b.at p))

pub scribble_lem :
    (b : Buffer) (out : Bytes)
    → IsOutput b
    → IsPresent b.buf
    → b.at + length out ≤ b.size
    → Ensures (Scribbled b out) (scribble b out)
unfolding scribble advance
scribble_lem b out v i h =
    let (p, eb, lp) = Holds-cases b.buf b.size v.sized.storage i in
    let ok : b.at + length out ≤ length p = omega arith in
    rw (eb, store_lem p b.at out ok) (scribbled b p out v lp ok)

pub advance_lem :
    (b : Buffer) (n : ℕ)
    → IsOutput b
    → b.at + n ≤ b.size
    → IsOutput (advance b n) × ((advance b n).left ≡ b.left + n) × ((advance b n).at ≡ b.at + n)
unfolding advance
advance_lem b n v h =
    rw (add_size_exact b.at n (omega arith), add_size_exact b.left n (omega arith))
      (
        record {
          sized =
              IsSized-with v.sized b.buf b.size v.sized.storage v.sized.nonempty v.sized.bounded;
          behind = omega arith;
          inside = h;
          rewound = λ z. omega arith;
        },
        refl,
        refl,
      )

pub length-unsent : (b : Buffer) → IsOutput b → IsPresent b.buf → length (unsent b) ≡ b.left
length-unsent b v i = omega (
  arith,
  length-take b.left (drop (b.at - b.left) (contents b.buf)),
  length-drop (b.at - b.left) (contents b.buf),
  length-contents b.buf b.size v.sized.storage i,
)
