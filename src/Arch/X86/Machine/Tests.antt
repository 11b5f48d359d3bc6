-- ===== src/Arch/X86/Machine/Tests.antt =====
-- Runs of the page tables of x86_64.
use uefi_bootloader.Prelude.{
  ◌*◌, ◌≡◌, refl, ◌⊎◌, ◌&&◌, none, some, List, [], ◌∷◌, arith, ◌==◌, if◌then◌else◌, panic,
}
use uefi_bootloader.Memory.Chunk.{Chunk}
use uefi_bootloader.Arch.BitRanges.{bit_ranges}
use uefi_bootloader.Arch.X86.Mapper.{Mapper, Tables, current, set_up_arch_specific_mappings}
use uefi_bootloader.Arch.X86.Mapper.Laws.{
  Recurses, set_up_arch_specific_mappings-Recurses, Copies, current-Copies,
}
use uefi_bootloader.Arch.X86.Samples.{
  small_crate, small_crate-IsCrate, page_table_flags, frame_list, in_order,
}

-- The firmware's table at the frame 2 maps one entry.
abbrev firmware_tables : Tables small_crate
firmware_tables t i = if t == 2 * 4096 && i == 0 then some (0x3000, 3) else some (0x7000, 1)

abbrev empty_root : Mapper small_crate
empty_root = record { tables = λ t i. none; level_4_table = 8 * 4096 }

current-Copies_example :
    Copies bit_ranges small_crate small_crate-IsCrate frame_list in_order firmware_tables
      (2 * 4096)
      (9 ∷ 10 ∷ [])
      (current small_crate bit_ranges frame_list firmware_tables (2 * 4096) (9 ∷ 10 ∷ []))
    ⊎ ((◌≡◌ {A = List Chunk} (9 ∷ 10 ∷ []) [])
        × (current small_crate bit_ranges frame_list firmware_tables (2 * 4096) (9 ∷ 10 ∷ [])
            ≡ panic))
current-Copies_example =
    current-Copies bit_ranges small_crate small_crate-IsCrate frame_list in_order firmware_tables
      (2 * 4096) (9 ∷ 10 ∷ []) tt
      ((omega arith, λ e. omega (arith, e)), ((omega arith, λ e. omega (arith, e)), tt))

set_up_arch_specific_mappings-Recurses_example :
    Recurses bit_ranges small_crate small_crate-IsCrate page_table_flags empty_root 8
      (set_up_arch_specific_mappings small_crate bit_ranges page_table_flags empty_root)
set_up_arch_specific_mappings-Recurses_example =
    set_up_arch_specific_mappings-Recurses bit_ranges small_crate small_crate-IsCrate
      page_table_flags empty_root 8 refl (omega arith)
