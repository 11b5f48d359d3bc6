-- ===== src/Arch/Aarch64.antt =====
-- uefi-bootloader/src/arch/aarch64/memory.rs: canonical addresses.
pub mod Canonical
pub mod Flags
pub mod Entry
pub mod Mapper
pub mod Machine
pub mod Samples
use uefi_bootloader.Prelude.{ℕ, bit_and, Bool, ◌==◌}
use uefi_bootloader.Arch.{BitField}

unfoldable pub is_canonical_virtual_address : BitField → ℕ → Bool
is_canonical_virtual_address bits virt_addr = bits.get_bits virt_addr 48 64 == 0

unfoldable pub canonicalize_virtual_address : ℕ → ℕ
canonicalize_virtual_address virt_addr = bit_and virt_addr 0x0000_FFFF_FFFF_FFFF

unfoldable pub is_canonical_physical_address : BitField → ℕ → Bool
is_canonical_physical_address bits phys_addr = bits.get_bits phys_addr 48 64 == 0

unfoldable pub canonicalize_physical_address : ℕ → ℕ
canonicalize_physical_address phys_addr = bit_and phys_addr 0x0000_FFFF_FFFF_FFFF
