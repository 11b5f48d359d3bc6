-- ===== src/BootInfo.antt =====
-- uefi-bootloader/src/boot_info.rs: where the parts of the boot information stand in its memory.
-- `Layout` is that of `core::alloc`. The sizes and alignments of the types are the compiler's.
pub mod Laws
pub mod Create
pub mod Turn
pub mod InBoth
mod Tests
use uefi_bootloader.Prelude.{
  ℕ, ◌+◌, ◌-◌, ◌*◌, ◌/◌, ◌^◌, max, Option, none, some, leb, if◌then◌else◌, Outcome, ◌>>=◌, ◌>>◌,
  expect, ok,
}

-- A size in bytes, and an alignment, which is a power of two.
pub record Layout : Type 0 where
  pub size : ℕ
  pub align : ℕ

abbrev pub isize_max : ℕ
isize_max = 2 ^ 63 - 1

-- `Layout::from_size_align`, of an alignment that is one.
abbrev pub from_size_align : ℕ → ℕ → Option Layout
from_size_align size align =
    if leb (size + (align - 1)) isize_max
    then some (record { size = size; align = align })
    else none

-- `Layout::array::<T>(n)`, from the layout of `T`.
unfoldable pub array : Layout → ℕ → Option Layout
array t n = from_size_align (t.size * n) t.align

-- The size rounded up to a multiple of an alignment.
abbrev pub padded : ℕ → ℕ → ℕ
padded size align = (size + (align - 1)) / align * align

-- `extend`: the layout of both parts, with the offset of the second one.
unfoldable pub extend : Layout → Layout → Option (Layout × ℕ)
extend l next =
    let offset = padded l.size next.align in
    elim (from_size_align (offset + next.size) (max l.align next.align)) [
      | none ↦ none
      | some whole ↦ some (whole, offset)
    ]

-- The layouts of the types that the boot information is made of.
pub record Layouts : Type 0 where
  pub boot_information : Layout
  pub memory_region : Layout
  pub module_info : Layout
  pub elf_section : Layout

pub record Offsets : Type 0 where
  pub combined : Layout
  pub memory_regions_offset : ℕ
  pub modules_offset : ℕ
  pub elf_sections_offset : ℕ

-- The first part of `create_boot_info`, for so many regions, modules and sections.
unfoldable pub offsets : Layouts → ℕ → ℕ → ℕ → Outcome Offsets
unfolding array extend
offsets t memory_regions_count modules_count elf_sections_count = do
  memory_regions_layout ← expect (array t.memory_region memory_regions_count)
  first ← expect (extend t.boot_information memory_regions_layout)
  modules_layout ← expect (array t.module_info modules_count)
  second ← expect (extend first.0 modules_layout)
  elf_sections_layout ← expect (array t.elf_section elf_sections_count)
  third ← expect (extend second.0 elf_sections_layout)
  ok (record {
    combined = third.0;
    memory_regions_offset = first.1;
    modules_offset = second.1;
    elf_sections_offset = third.1;
  })
