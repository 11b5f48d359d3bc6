-- ===== src/Api/MemoryRegions.antt =====
-- `MemoryRegions` of uefi-bootloader-api/src/lib.rs, a slice of memory regions for other languages.
use uefi_bootloader.Prelude.{ℕ, List, Outcome}
use uefi_bootloader.Memory.Address.{Address}
use uefi_bootloader.Api.Slices.{StaticSlice, from_raw_parts, write_element}
use uefi_bootloader.Api.{MemoryRegion}

pub record MemoryRegions : Type 0 where
  pub ptr : Address
  pub len : ℕ

-- `Deref`, with the memory that holds a region at an address, and the size of one.
unfoldable pub deref : (Address → MemoryRegion) → ℕ → MemoryRegions → List MemoryRegion
deref memory size_of s = from_raw_parts memory size_of s.ptr s.len

-- `DerefMut`, and a write to the element at an index.
unfoldable pub deref_mut :
    (Address → MemoryRegion)
    → ℕ
    → MemoryRegions
    → ℕ
    → MemoryRegion
    → Outcome (Address → MemoryRegion)
deref_mut memory size_of s i v = write_element memory size_of s.ptr s.len i v

-- `From<&'static mut [MemoryRegion]>`
unfoldable pub from : StaticSlice → MemoryRegions
from regions = record { ptr = regions.as_mut_ptr; len = regions.len }

-- `From<MemoryRegions> for &'static mut [MemoryRegion]`
unfoldable pub into : MemoryRegions → StaticSlice
into regions = record { as_mut_ptr = regions.ptr; len = regions.len }
