-- ===== src/Memory/Range.antt =====
-- `implement_page_frame_range!` of uefi-bootloader/src/memory.rs: `PageRange` and `FrameRange`.
pub mod Steps
pub mod Laws
pub mod Order
use uefi_bootloader.Prelude.{
  ℕ, zero, suc, ◌+◌, ◌-◌, ◌*◌, ◌/◌, ◌%◌, ◌^◌, ◌≤◌, ◌<◌, min, max, bit_and, bit_or, bit_xor, ◌≡◌,
  refl, sym, ap, ◌∙◌, ◌≢◌, ◌↔◌, ◌⊎◌, inl, inr, Bool, true, false, not, ◌&&◌, ◌||◌, Option, none,
  some, List, [], ◌∷◌, ◌++◌, map, arith, ltb, leb, ◌==◌, if◌then◌else◌, ltb→lt, ltb→le, leb→le,
  leb→lt, ==→≡, ==→≢, Bool-cases, Option-cases, length, get_elem?, get_or, set, replicate, take,
  drop, length-append, length-set, length-replicate, get_or-set_self, get_or-set_ne,
  get_elem?-eq-get_or, get_or_past, get_or-replicate, get_or_ext, All, range, length-range, word,
  usize_max, ◌+w◌, ◌-w◌, ◌*w◌, saturating_add, saturating_sub, ◌<<<◌, ◌>>>◌, shift_right_signed,
  bit_not, bit_and_half, bit_or_half, bit_and-lt, bit_or-lt, bit_and_fields, bit_or_fields,
  zero-bit_or, zero-bit_and, bit_or-zero, bit_and-zero, bit_and_ones, bit_or-div, bit_or-mod,
  bit_and-div, bit_and-mod, bit_or_bit, bit_and_bit, Outcome, ◌>>=◌, ◌>>◌, expect, guard, ok, panic,
}
use uefi_bootloader.Memory.Address
use uefi_bootloader.Memory.Address.{AddressSpace, Address, page_size}
use uefi_bootloader.Memory.Chunk
use uefi_bootloader.Memory.Chunk.{Chunk, containing_address, forward_checked}

-- `RangeInclusive<Page>` and `RangeInclusive<Frame>`
pub record ChunkRange : Type 0 where
  pub start : Chunk
  pub end : Chunk

abbrev pub new : Chunk → Chunk → ChunkRange
new start end = record { start = start; end = end }

unfoldable pub empty : ChunkRange
empty = new 1 0

-- `is_empty` and `contains` of `RangeInclusive`, which the type dereferences to
abbrev pub is_empty : ChunkRange → Bool
is_empty r = not (leb r.start r.end)

abbrev pub contains : ChunkRange → Chunk → Bool
contains r c = leb r.start c && leb c r.end

-- `next` of `RangeInclusive`, called up to `fuel` times: it yields the start, and steps to the next
-- chunk by `forward_checked` while the start is below the end. Below the end there is a next chunk.
unfoldable pub chunks_from : ℕ → Chunk → Chunk → List Chunk
unfolding forward_checked
chunks_from zero start end = []
chunks_from (suc fuel) start end = elim (ltb start end) [
  | true ↦ elim (forward_checked start 1) [ none ↦ [] | some n ↦ start ∷ chunks_from fuel n end ]
  | false ↦ if start == end then start ∷ [] else []
]

-- `into_iter`, with a call for each chunk from the start to the end
unfoldable pub into_iter : ChunkRange → List Chunk
unfolding chunks_from
into_iter r = chunks_from (r.end + 1 - r.start) r.start r.end

-- `size_in_pages` and `size_in_frames`
unfoldable pub size_in_chunks : ChunkRange → ℕ
size_in_chunks r = saturating_sub (r.end +w 1) r.start

unfoldable pub size_in_bytes : ChunkRange → ℕ
unfolding size_in_chunks
size_in_bytes r = size_in_chunks r *w page_size

unfoldable pub contains_address : ChunkRange → Address → Bool
unfolding containing_address
contains_address r addr = contains r (containing_address addr)

unfoldable pub to_extended : ChunkRange → Chunk → ChunkRange
to_extended r to_include =
    if is_empty r
    then new to_include to_include
    else new (min r.start to_include) (max r.end to_include)

unfoldable pub overlap : ChunkRange → ChunkRange → Option ChunkRange
overlap r other =
    let starts = max r.start other.start in
    let ends = min r.end other.end in if leb starts ends then some (new starts ends) else none

module _ (space : AddressSpace) where
  -- `from_virt_addr` and `from_phys_addr`
  unfoldable pub from_addr : Address → ℕ → Outcome ChunkRange
  unfolding containing_address Address.add
  from_addr starting_addr size_in_bytes = do
    guard (ltb 0 size_in_bytes)
    let start = containing_address starting_addr
    let end = containing_address (Address.add space starting_addr (size_in_bytes -w 1))
    ok (new start end)

  unfoldable pub start_address : ChunkRange → Address
  unfolding Chunk.start_address
  start_address r = Chunk.start_address space r.start

  unfoldable pub offset_of_address : ChunkRange → Address → Option ℕ
  unfolding contains_address start_address
  offset_of_address r addr =
      if contains_address r addr then some (addr -w start_address r) else none

  unfoldable pub address_at_offset : ChunkRange → ℕ → Option Address
  unfolding size_in_bytes start_address Address.add
  address_at_offset r offset =
      if leb offset (size_in_bytes r)
      then some (Address.add space (start_address r) offset)
      else none
