-- ===== src/Api/Modules.antt =====
-- `Modules` of uefi-bootloader-api/src/lib.rs, a slice of modules for other languages.
use uefi_bootloader.Prelude.{ℕ, List, Outcome}
use uefi_bootloader.Memory.Address.{Address}
use uefi_bootloader.Api.Slices.{StaticSlice, from_raw_parts, write_element}
use uefi_bootloader.Modules.{Module}

pub record Modules : Type 0 where
  pub ptr : Address
  pub len : ℕ

-- `Deref`, with the memory that holds a module at an address, and the size of one.
unfoldable pub deref : (Address → Module) → ℕ → Modules → List Module
deref memory size_of s = from_raw_parts memory size_of s.ptr s.len

-- `DerefMut`, and a write to the element at an index.
unfoldable pub deref_mut :
    (Address → Module) → ℕ → Modules → ℕ → Module → Outcome (Address → Module)
deref_mut memory size_of s i v = write_element memory size_of s.ptr s.len i v

-- `From<&'static mut [Module]>`
unfoldable pub from : StaticSlice → Modules
from modules = record { ptr = modules.as_mut_ptr; len = modules.len }

-- `From<Modules> for &'static mut [Module]`
unfoldable pub into : Modules → StaticSlice
into modules = record { as_mut_ptr = modules.ptr; len = modules.len }
