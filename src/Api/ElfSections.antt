-- ===== src/Api/ElfSections.antt =====
-- `ElfSections` of uefi-bootloader-api/src/lib.rs, a slice of sections for other languages.
use uefi_bootloader.Prelude.{ℕ, List, Outcome}
use uefi_bootloader.Memory.Address.{Address}
use uefi_bootloader.Api.Slices.{StaticSlice, from_raw_parts, write_element}
use uefi_bootloader.Api.{ElfSection}

pub record ElfSections : Type 0 where
  pub ptr : Address
  pub len : ℕ

-- `Deref`, with the memory that holds a section at an address, and the size of one.
unfoldable pub deref : (Address → ElfSection) → ℕ → ElfSections → List ElfSection
deref memory size_of s = from_raw_parts memory size_of s.ptr s.len

-- `DerefMut`, and a write to the element at an index.
unfoldable pub deref_mut :
    (Address → ElfSection) → ℕ → ElfSections → ℕ → ElfSection → Outcome (Address → ElfSection)
deref_mut memory size_of s i v = write_element memory size_of s.ptr s.len i v

-- `From<&'static mut [ElfSection]>`
unfoldable pub from : StaticSlice → ElfSections
from elf_sections = record { ptr = elf_sections.as_mut_ptr; len = elf_sections.len }

-- `From<ElfSections> for &'static mut [ElfSection]`
unfoldable pub into : ElfSections → StaticSlice
into elf_sections = record { as_mut_ptr = elf_sections.ptr; len = elf_sections.len }
