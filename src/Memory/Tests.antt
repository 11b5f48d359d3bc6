-- ===== src/Memory/Tests.antt =====
-- Runs of addresses, pages and ranges of pages, with the virtual addresses of x86_64.
use uefi_bootloader.Prelude.{
  ℕ, ◌+◌, ◌-◌, ◌*◌, ◌≤◌, ◌<◌, ◌≡◌, refl, ◌↔◌, true, false, ◌&&◌, none, some, [], arith, length,
  get_elem?, ok, panic,
}
use uefi_bootloader.Arch.BitRanges.{bit_ranges}
use uefi_bootloader.Arch.X86.{is_canonical_virtual_address}
use uefi_bootloader.Arch.X86.Canonical.{virtual_space}
use uefi_bootloader.Memory.Address
use uefi_bootloader.Memory.Address.{AddressSpace}
use uefi_bootloader.Memory.Address.Laws as AddressLaws
use uefi_bootloader.Memory.Chunk
use uefi_bootloader.Memory.Chunk.Laws as ChunkLaws
use uefi_bootloader.Memory.Range
use uefi_bootloader.Memory.Range.{ChunkRange, contains, is_empty}
use uefi_bootloader.Memory.Range.Laws as RangeLaws
use uefi_bootloader.Memory.Range.Order

abbrev space : AddressSpace
unfolding virtual_space
space = virtual_space bit_ranges

abbrev pages : ChunkRange
pages = record { start = 2; end = 4 }

abbrev others : ChunkRange
others = record { start = 4; end = 9 }

refused : Address.new space 0x0000_8000_0000_0000 ≡ none
unfolding Address.new space is_canonical_virtual_address
refused = refl

shared_page : Range.overlap pages others ≡ some (record { start = 4; end = 4 })
unfolding Range.overlap
shared_page = refl

extended : Range.to_extended pages 7 ≡ record { start = 2; end = 7 }
unfolding Range.to_extended
extended = refl

new-new_canonical_example :
    (Address.new space (Address.new_canonical space 0x8000_0000_0123)
      ≡ some (Address.new_canonical space 0x8000_0000_0123))
    × (Address.offset space (Address.new_canonical space 0x8000_0000_0123)
        ≡ Address.offset space 0x8000_0000_0123)
new-new_canonical_example = AddressLaws.new-new_canonical space 0x8000_0000_0123 (omega arith)

sub-add_example :
    (Address.add space 4096 10 ≡ 4106) × (Address.sub space (Address.add space 4096 10) 10 ≡ 4096)
unfolding space
sub-add_example = AddressLaws.sub-add space 4096 10 (omega arith)

containing_address-start_address_example :
    (Chunk.containing_address (Chunk.start_address space 7) ≡ 7)
    × (Chunk.start_address space (Chunk.containing_address 5000) + Address.offset space 5000 ≡ 5000)
unfolding space
containing_address-start_address_example =
    ChunkLaws.containing_address-start_address space 7 5000 (omega arith) (omega arith)

forward_checked-steps_between_example :
    ((n : ℕ)
      → Chunk.steps_between 3 8 ≡ some n
      → (Chunk.forward_checked 3 n ≡ some 8) × (Chunk.backward_checked 8 n ≡ some 3))
    × ((Chunk.steps_between 3 8 ≡ none) ↔ (8 < 3))
forward_checked-steps_between_example = ChunkLaws.forward_checked-steps_between 3 8 (omega arith)

sub-add_clamped_example :
    (Chunk.max_page_number ≤ 5 + 3 → Chunk.add 5 3 ≡ Chunk.max_page_number)
    × (5 + 3 ≤ Chunk.max_page_number → (Chunk.add 5 3 ≡ 5 + 3) × (Chunk.sub (Chunk.add 5 3) 3 ≡ 5))
sub-add_clamped_example = ChunkLaws.sub-add_clamped 5 3

contains_address_iff_example :
    (Range.contains_address pages 9000 ≡ true) ↔ ((2 * 4096 ≤ 9000) × (9000 < (4 + 1) * 4096))
contains_address_iff_example = RangeLaws.contains_address_iff pages 9000

pages-Fits : RangeLaws.Fits space pages
unfolding space
pages-Fits = record { ordered = omega arith; below = omega arith }

address_at_offset-offset_of_address_example :
    (Range.offset_of_address space pages 9000 ≡ some 808)
    ↔ ((Range.address_at_offset space pages 808 ≡ some 9000) × (808 < Range.size_in_bytes pages))
address_at_offset-offset_of_address_example =
    RangeLaws.address_at_offset-offset_of_address space pages pages-Fits 9000 808

address_at_offset-size_in_bytes_example :
    (a : Address.Address) × (Range.address_at_offset space pages (Range.size_in_bytes pages)
      ≡ some a)
    × (Range.contains_address pages a ≡ false)
    × (Range.offset_of_address space pages a ≡ none)
address_at_offset-size_in_bytes_example =
    RangeLaws.address_at_offset-size_in_bytes space pages pages-Fits

from_addr-contains_example :
    (Range.from_addr space 5000 0 ≡ panic)
    × (0 < 4000
        → (r : ChunkRange) × (Range.from_addr space 5000 4000 ≡ ok r)
          × ((c : ℕ)
              → (contains r c ≡ true) ↔ ((c * 4096 < 5000 + 4000) × (5000 < (c + 1) * 4096))))
unfolding space
from_addr-contains_example = RangeLaws.from_addr-contains space 5000 4000 (omega arith)

into_iter-contains_example :
    (length (Range.into_iter pages) ≡ Range.size_in_chunks pages)
    × ((i : ℕ)
        → i < Range.size_in_chunks pages
        → get_elem? (Range.into_iter pages) i ≡ some (2 + i))
    × ((c : ℕ) → (contains pages c ≡ true) ↔ ((2 ≤ c) × (c - 2 < Range.size_in_chunks pages)))
    × (Range.into_iter Range.empty ≡ [])
into_iter-contains_example = Order.into_iter-contains pages (omega arith)

overlap-contains_example :
    ((o : ChunkRange)
      → Range.overlap pages others ≡ some o
      → (is_empty o ≡ false) × ((c : ℕ) → contains o c ≡ (contains pages c && contains others c)))
    × ((Range.overlap pages others ≡ none)
        ↔ ((c : ℕ) → (contains pages c && contains others c) ≡ false))
overlap-contains_example = Order.overlap-contains pages others

to_extended_least_example :
    (contains (Range.to_extended pages 7) 7 ≡ true)
    × ((c : ℕ) → contains pages c ≡ true → contains (Range.to_extended pages 7) c ≡ true)
    × ((s : ChunkRange)
        → contains s 7 ≡ true
        → ((c : ℕ) → contains pages c ≡ true → contains s c ≡ true)
        → (c : ℕ) → contains (Range.to_extended pages 7) c ≡ true
        → contains s c ≡ true)
to_extended_least_example = Order.to_extended_least pages 7
