-- ===== src/Memory/Range/Order.antt =====
-- Ranges as sets of chunks: iteration, intersection and extension.
use uefi_bootloader.Prelude.{
  ℕ, zero, suc, ◌+◌, ◌-◌, ◌≤◌, ◌<◌, max, ◌≡◌, refl, ◌↔◌, true, false, ◌&&◌, none, some, [], arith,
  ltb, if◌then◌else◌, length, get_elem?, range, length-range, usize_max,
}
use uefi_bootloader.Memory.Range.Steps.{into_iter-range}
use uefi_bootloader.Memory.Range.{
  ChunkRange, empty, is_empty, contains, into_iter, size_in_chunks, to_extended, overlap,
}

get_elem?-range : (a n i : ℕ) → get_elem? (range a n) i ≡ (if ltb i n then some (a + i) else none)
get_elem?-range a zero i = ground arith
get_elem?-range a (suc n) zero = ground arith
get_elem?-range a (suc n) (suc i) = ground (arith, get_elem?-range (a + 1) n i)

-- A range whose end is below the highest number yields as many chunks as `size_in_chunks` says, the
-- first of them `start` and each next one higher by one; a chunk is contained exactly if its distance
-- from `start` is less than that. The range `empty` yields none.
pub into_iter-contains :
    (r : ChunkRange)
    → r.end < usize_max
    → (length (into_iter r) ≡ size_in_chunks r)
      × ((i : ℕ) → i < size_in_chunks r → get_elem? (into_iter r) i ≡ some (r.start + i))
      × ((c : ℕ) → (contains r c ≡ true) ↔ ((r.start ≤ c) × (c - r.start < size_in_chunks r)))
      × (into_iter empty ≡ [])
unfolding into_iter size_in_chunks empty
into_iter-contains r h = (
  rw (into_iter-range r (omega (arith, h)), length-range r.start (r.end + 1 - r.start))
      (omega arith),
  λ i hi.
      rw (into_iter-range r (omega (arith, h)), get_elem?-range r.start (r.end + 1 - r.start) i)
        (ground arith),
  λ c. (λ e. ground arith, λ e. ground arith),
  refl,
)

-- `overlap` returns a range of exactly the chunks in both ranges, and nothing exactly when no
-- chunk is in both.
pub overlap-contains :
    (r s : ChunkRange)
    → ((o : ChunkRange)
        → overlap r s ≡ some o
        → (is_empty o ≡ false) × ((c : ℕ) → contains o c ≡ (contains r c && contains s c)))
      × ((overlap r s ≡ none) ↔ ((c : ℕ) → (contains r c && contains s c) ≡ false))
unfolding overlap
overlap-contains r s = (
  λ o e. (ground arith, λ c. ground arith),
  (λ e c. ground arith, λ none_shared. ground (arith, none_shared (max r.start s.start))),
)

-- `to_extended` returns the least range that contains the chunk and all of the old range: whatever
-- range contains these contains it.
pub to_extended_least :
    (r : ChunkRange) (p : ℕ)
    → (contains (to_extended r p) p ≡ true)
      × ((c : ℕ) → contains r c ≡ true → contains (to_extended r p) c ≡ true)
      × ((s : ChunkRange)
          → contains s p ≡ true
          → ((c : ℕ) → contains r c ≡ true → contains s c ≡ true)
          → (c : ℕ) → contains (to_extended r p) c ≡ true
          → contains s c ≡ true)
unfolding to_extended
to_extended_least r p =
    (ground arith, λ c h. ground arith, λ s hp all c h. ground (arith, all r.start, all r.end))
