-- ===== src/Arch/X86.antt =====
-- uefi-bootloader/src/arch/x86_64/memory.rs: canonical addresses.
pub mod Canonical
pub mod Flags
pub mod Mapper
pub mod Machine
pub mod Samples
use uefi_bootloader.Prelude.{ℕ, bit_and, Bool, ◌||◌, ◌==◌, ◌<<<◌, shift_right_signed}
use uefi_bootloader.Arch.{BitField}

unfoldable pub is_canonical_virtual_address : BitField → ℕ → Bool
is_canonical_virtual_address bits virt_addr =
    let top = bits.get_bits virt_addr 47 64 in top == 0 || top == 0b1_1111_1111_1111_1111

unfoldable pub canonicalize_virtual_address : ℕ → ℕ
canonicalize_virtual_address virt_addr = shift_right_signed (virt_addr <<< 16) 16

unfoldable pub is_canonical_physical_address : BitField → ℕ → Bool
is_canonical_physical_address bits phys_addr = bits.get_bits phys_addr 52 64 == 0

unfoldable pub canonicalize_physical_address : ℕ → ℕ
canonicalize_physical_address phys_addr = bit_and phys_addr 0x000F_FFFF_FFFF_FFFF
