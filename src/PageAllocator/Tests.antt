-- ===== src/PageAllocator/Tests.antt =====
-- Runs of the page allocators of both architectures.
use uefi_bootloader.Prelude.{
  ℕ, ◌+◌, ◌-◌, ◌*◌, ◌^◌, ◌<◌, ◌≡◌, refl, ◌≢◌, ◌⊎◌, true, false, ◌++◌, arith, ltb, if◌then◌else◌,
  length, set, replicate, Outcome, ok, panic,
}
use uefi_bootloader.Arch.BitRanges.{bit_ranges, overwrite}
use uefi_bootloader.Arch.X86.{canonicalize_virtual_address}
use uefi_bootloader.Arch.X86.Canonical as X86Space
use uefi_bootloader.Arch.Aarch64.Canonical as Aarch64Space
use uefi_bootloader.PageAllocator
use uefi_bootloader.PageAllocator.{
  PageAllocator, ProgramHeader, use_entries, top_index, first_unused, windows, slots_for,
}
use uefi_bootloader.Memory.Address
use uefi_bootloader.Memory.Chunk.{containing_address}
use uefi_bootloader.Arch.Aarch64 as Aarch64Arch
use uefi_bootloader.PageAllocator.Windows.{Free}
use uefi_bootloader.PageAllocator.Slots.{
  is_used, Reserves, get_free_entries-Reserves, InHalf, Marks, mark_segment_as_used-Marks,
}
use uefi_bootloader.PageAllocator.Place.{Places}
use uefi_bootloader.PageAllocator.X86
use uefi_bootloader.PageAllocator.X86.{Paging}
use uefi_bootloader.PageAllocator.Aarch64
use uefi_bootloader.PageAllocator.Apart.{x86_64_apart, aarch64_apart, mark_segment_as_used_at_end}

abbrev index : ℕ → Outcome ℕ
index i = if ltb i 512 then ok i else panic

index-ok : (i : ℕ) → i < 512 → index i ≡ ok i
index-ok i h = ground arith

-- The interface `Paging` can be met.
abbrev paging : Paging
paging = record {
  page_table_index = index;
  page_table_index-ok = index-ok;
  start_of_1gib = λ p4 p3. canonicalize_virtual_address (p4 * 2 ^ 39 + p3 * 2 ^ 30);
  start_of_1gib_lem = λ p4 p3 h k. refl;
}

-- A segment of 64 KiB that the higher half's last slot holds, and one in the second slot.
abbrev high_segment : ProgramHeader
high_segment = record {
  p_type = 1;
  p_flags = 5;
  p_offset = 0;
  p_vaddr = 0xFFFF_FFFF_8000_0000;
  p_paddr = 0;
  p_filesz = 0x1_0000;
  p_memsz = 0x1_0000;
}

abbrev low_segment : ProgramHeader
low_segment = record high_segment { p_vaddr = 0x80_0000_0000 }

abbrev fresh : PageAllocator
unfolding PageAllocator.new
fresh = PageAllocator.new

fresh_size : length fresh.entries ≡ 512
unfolding fresh
fresh_size = refl

get_free_entries-Reserves_example :
    (PageAllocator.get_free_entries fresh 0 ≡ panic)
    × (0 < 3
        → Reserves fresh 3 (PageAllocator.get_free_entries fresh 3)
          ⊎ ((PageAllocator.get_free_entries fresh 3 ≡ panic)
              × ((j : ℕ) → ¬ Free fresh.entries j 3)))
get_free_entries-Reserves_example = get_free_entries-Reserves fresh 3

low_half : InHalf (Aarch64Space.virtual_space bit_ranges) 0x80_0000_0000 0x1_0000
unfolding Aarch64Space.virtual_space
low_half = record {
  below = omega arith;
  canonical = λ k h. omega (arith, Aarch64Space.virtual_closed (0x80_0000_0000 + k));
  half = refl;
}

low_half_x86 : InHalf (X86Space.virtual_space bit_ranges) 0x80_0000_0000 0x1_0000
unfolding X86Space.virtual_space
low_half_x86 = record {
  below = omega arith;
  canonical = λ k h. X86Space.virtual_below (0x80_0000_0000 + k) (omega arith);
  half = refl;
}

mark_segment_as_used-Marks_example :
    Marks fresh 0x80_0000_0000 0x1_0000
      (PageAllocator.mark_segment_as_used (Aarch64Space.virtual_space bit_ranges) fresh low_segment)
mark_segment_as_used-Marks_example =
    mark_segment_as_used-Marks (Aarch64Space.virtual_space bit_ranges) fresh low_segment fresh_size
      (omega arith) low_half

get_free_address-Places_example :
    Places
      (X86Space.virtual_space bit_ranges)
      fresh
      0x4000
      (X86.get_free_address bit_ranges paging fresh 0x4000)
    ⊎ ((X86.get_free_address bit_ranges paging fresh 0x4000 ≡ panic)
        × ((i : ℕ) → is_used fresh i ≡ true))
get_free_address-Places_example =
    X86.get_free_address-Places bit_ranges paging fresh 0x4000 fresh_size (omega arith)
      (omega arith)

get_free_address_low-Places_example :
    Places
      (Aarch64Space.virtual_space bit_ranges)
      fresh
      0x4000
      (Aarch64.get_free_address bit_ranges fresh 0x4000)
    ⊎ ((Aarch64.get_free_address bit_ranges fresh 0x4000 ≡ panic)
        × ((i : ℕ) → i < 256 → is_used fresh i ≡ true))
get_free_address_low-Places_example =
    Aarch64.get_free_address_low-Places bit_ranges fresh 0x4000 fresh_size (omega arith)
      (omega arith)

abbrev marked : PageAllocator
marked = record { entries = set fresh.entries 1 true }

abbrev placed : PageAllocator
placed = record { entries = set marked.entries 2 true }

marked_x86_64 :
    PageAllocator.mark_segment_as_used (X86Space.virtual_space bit_ranges) fresh low_segment
    ≡ ok marked
unfolding PageAllocator.mark_segment_as_used X86Space.virtual_space use_entries top_index
    containing_address Address.sub canonicalize_virtual_address Address.add fresh
marked_x86_64 = refl

placed_x86_64 : X86.get_free_address bit_ranges paging marked 0x4000 ≡ ok (placed, 0x100_0000_0000)
unfolding X86Space.virtual_space use_entries canonicalize_virtual_address fresh X86.get_free_address
    X86.get_free_entries PageAllocator.get_free_entries slots_for first_unused windows
    X86.table_index X86.address_of Address.new_canonical
placed_x86_64 = refl

marked_aarch64 :
    PageAllocator.mark_segment_as_used (Aarch64Space.virtual_space bit_ranges) fresh low_segment
    ≡ ok marked
unfolding PageAllocator.mark_segment_as_used Aarch64Space.virtual_space use_entries top_index
    containing_address Address.sub Aarch64Arch.canonicalize_virtual_address Address.add fresh
marked_aarch64 = refl

placed_aarch64 : Aarch64.get_free_address bit_ranges marked 0x4000 ≡ ok (placed, 0x100_0000_0000)
unfolding Aarch64Space.virtual_space use_entries Aarch64Arch.canonicalize_virtual_address fresh
    Aarch64.get_free_address PageAllocator.get_free_entries slots_for first_unused windows
    Aarch64.address_of overwrite Address.new Aarch64Arch.is_canonical_virtual_address
placed_aarch64 = refl

-- The last slot is the higher half's.
high_slot :
    (s : PageAllocator) × (PageAllocator.mark_segment_as_used
        (X86Space.virtual_space bit_ranges)
        fresh
        high_segment
      ≡ ok s)
    × (is_used s 511 ≡ true)
    × (is_used s 510 ≡ false)
unfolding PageAllocator.mark_segment_as_used X86Space.virtual_space use_entries top_index
    containing_address Address.sub canonicalize_virtual_address Address.add fresh
high_slot = (record { entries = set fresh.entries 511 true }, refl, refl, refl)

-- On aarch64 a free slot above the 256th is not found.
abbrev lower_full : PageAllocator
lower_full = record { entries = replicate 256 true ++ replicate 256 false }

upper_unreachable : Aarch64.get_free_address bit_ranges lower_full 0x4000 ≡ panic
unfolding use_entries Aarch64.get_free_address PageAllocator.get_free_entries slots_for first_unused
    windows Aarch64.address_of overwrite
upper_unreachable = refl

x86_64_apart_example : 0x100_0000_0000 + 0x3FFF ≢ 0x80_0000_0000 + 0xFFFF
x86_64_apart_example =
    x86_64_apart bit_ranges paging fresh marked placed low_segment 0x4000 0x100_0000_0000 fresh_size
      (omega arith) low_half_x86 marked_x86_64 (omega arith) (omega arith) placed_x86_64 0xFFFF
      0x3FFF (omega arith) (omega arith)

aarch64_apart_example : 0x100_0000_0000 + 0x3FFF ≢ 0x80_0000_0000 + 0xFFFF
aarch64_apart_example =
    aarch64_apart bit_ranges fresh marked placed low_segment 0x4000 0x100_0000_0000 fresh_size
      (omega arith) low_half marked_aarch64 (omega arith) (omega arith) placed_aarch64 0xFFFF 0x3FFF
      (omega arith) (omega arith)

-- All slots but the first one, up to the end of the address space.
abbrev whole_segment : ProgramHeader
whole_segment = record high_segment { p_vaddr = 2 ^ 39; p_memsz = 2 ^ 48 - 2 ^ 39 }

mark_segment_as_used_at_end_example :
    PageAllocator.mark_segment_as_used (Aarch64Space.virtual_space bit_ranges) fresh whole_segment
    ≡ ok fresh
mark_segment_as_used_at_end_example =
    mark_segment_as_used_at_end bit_ranges fresh whole_segment (omega arith) (omega arith)
      (omega arith)

-- So the memory that is placed next stands inside of the segment.
inside_of_segment : Aarch64.get_free_address bit_ranges fresh 0x4000 ≡ ok (marked, 2 ^ 39)
unfolding Aarch64Space.virtual_space use_entries Aarch64Arch.canonicalize_virtual_address fresh
    Aarch64.get_free_address PageAllocator.get_free_entries slots_for first_unused windows
    Aarch64.address_of overwrite Address.new Aarch64Arch.is_canonical_virtual_address
inside_of_segment = refl
