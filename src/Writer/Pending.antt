-- ===== src/Writer/Pending.antt =====
-- How the pending bytes of the writer go to the caller, and what `_encoding` adds to them.
use Prim.Native.Nat.{min}
use dnswire.Prelude.{
  ℕ, ◌+◌, ◌≤◌, ◌≡◌, refl, sym, ap, ◌∙◌, length, drop, take, ◌++◌, ltb, if◌then◌else◌, arith,
  take-append, length-take,
}
use dnswire.Exec.{ret, Bytes}
use dnswire.Exec.Rules.{store_lem}
use dnswire.Buffer.{drain}
use dnswire.Buffer.Valid.{IsOutput, IsPresent, unsent}
use dnswire.Buffer.Drain.{drain_lem, head_lem, length-unsent}
use dnswire.Tinyframe.{Tinyframe}
use dnswire.Writer.Pop.{Call, Given, pop_out}

-- How many pending bytes go out at once.
limit_lem : (a b : ℕ) → (if ltb a b then a else b) ≡ min b a
limit_lem a b = ground arith

module _ (t : Tinyframe) where
  -- `n` bytes are copied to the caller's `data`.
  abbrev pub copied_out : ℕ → Call t → Call t
  copied_out n c =
      let h = take n (unsent c.writer.output) in
      record c {
        writer = record (c.writer) { popped = n; output = drain (c.writer.output) n };
        data_out = take 0 (c.data_out) ++ (h ++ drop (0 + length h) (c.data_out));
      }

  -- The pending bytes `all` are now, in order, the first `popped` bytes of `data` and what is still
  -- pending.
  pub record Handed (all : Bytes) (len : ℕ) (c : Call t) : Type 0 where
    pub count : c.writer.popped ≤ len
    pub bytes : take c.writer.popped c.data_out ≡ take c.writer.popped all
    pub rest : unsent c.writer.output ≡ drop c.writer.popped all

  pub pop_out_lem :
      (g : Given) (c : Call t)
      → IsOutput c.writer.output
      → IsPresent c.writer.output.buf
      → g.len ≤ length c.data_out
      → pop_out t g c ≡ ret (copied_out (min c.writer.output.left g.len) c)
  unfolding pop_out
  pop_out_lem g c v i h =
      let n = min c.writer.output.left g.len in
      let bs = take n (unsent c.writer.output) in
      let lw : length bs ≤ n = omega (arith, length-take n (unsent c.writer.output)) in
      rw
        (
          limit_lem g.len c.writer.output.left,
          head_lem c.writer.output n v i (omega arith),
          store_lem c.data_out 0 bs (omega arith),
        )
        refl

  pub copied_out-Handed :
      (c : Call t) (n len : ℕ)
      → IsOutput c.writer.output
      → IsPresent c.writer.output.buf
      → n ≤ c.writer.output.left
      → n ≤ len
      → Handed (unsent c.writer.output) len (copied_out n c)
  copied_out-Handed c n len v i h k =
      let bs = take n (unsent c.writer.output) in
      let lw : length bs ≡ n =
        omega (arith, length-take n (unsent c.writer.output), length-unsent c.writer.output v i) in
      record {
        count = k;
        bytes =
            ap (λ m. take m (bs ++ drop (0 + length bs) c.data_out)) {x = n} {y = length bs}
              (sym lw)
            ∙ take-append bs (drop (0 + length bs) c.data_out);
        rest = (drain_lem c.writer.output n v i h).queue;
      }
