-- ===== src/Memory/Range/Steps.antt =====
-- Iteration over a range of chunks, step by step, yields the chunks in order.
use uefi_bootloader.Prelude.{
  ℕ, zero, suc, ◌+◌, ◌-◌, ◌^◌, ◌<◌, ◌≡◌, refl, ap, inl, inr, true, ◌∷◌, arith, ltb, leb, ◌==◌,
  ltb→lt, ltb→le, Bool-cases, range, usize_max,
}
use uefi_bootloader.Memory.Chunk.{Chunk, forward_checked}
use uefi_bootloader.Memory.Range.{ChunkRange, chunks_from, into_iter}

chunks_from-range :
    (n : ℕ) (start end : Chunk)
    → end < 2 ^ 64
    → end + 1 - start ≡ n
    → chunks_from n start end ≡ range start n
unfolding chunks_from forward_checked
chunks_from-range zero start end h e = refl
chunks_from-range (suc n) start end h e = elim (Bool-cases (ltb start end)) [
  | inl lt ↦
      let more = ltb→lt start end lt in
      let steps : leb (start + 1) usize_max ≡ true = ground (arith, more, h) in
      rw (lt, steps, chunks_from)
        (ap (λ l. start ∷ l) (chunks_from-range n (start + 1) end h (omega (arith, e, more))))
  | inr ge ↦
      let past = ltb→le start end ge in
      let last : n ≡ 0 = omega (arith, e, past) in
      let at : (start == end) ≡ true = ground (arith, e, past) in
      rw (ge, at, last, chunks_from) refl
]

-- The calls are enough: one for each chunk from the start to the end.
pub into_iter-range :
    (r : ChunkRange) → r.end < 2 ^ 64 → into_iter r ≡ range r.start (r.end + 1 - r.start)
unfolding into_iter
into_iter-range r h = chunks_from-range (r.end + 1 - r.start) r.start r.end h refl
