-- ===== src/Arch/Canonical.antt =====
-- The checked constructors of `VirtualAddress` and `PhysicalAddress` on both architectures.
use uefi_bootloader.Prelude.{
  ℕ, ◌-◌, ◌^◌, ◌<◌, ◌≡◌, Bool, true, false, ◌||◌, Option, none, some, arith, ltb, leb,
}
use uefi_bootloader.Memory.Address.{Address, new}
use uefi_bootloader.Arch.{BitField}
use uefi_bootloader.Arch.X86 as X86
use uefi_bootloader.Arch.X86.Canonical as X86Space
use uefi_bootloader.Arch.Aarch64 as Aarch64
use uefi_bootloader.Arch.Aarch64.Canonical as Aarch64Space

-- The address if the test holds.
abbrev pub only_if : Bool → ℕ → Option Address
only_if true a = some a
only_if false a = none

module _ (bits : BitField) where
  -- `new` on a machine word accepts, unchanged, on x86_64 the virtual addresses whose 17 highest bits
  -- are the same and the physical addresses below `2 ^ 52`, and on aarch64 the addresses below
  -- `2 ^ 48` of both kinds; it refuses all others.
  pub new_accepts :
      (a : ℕ)
      → a < 2 ^ 64
      → (new (X86Space.virtual_space bits) a
          ≡ only_if (ltb a (2 ^ 47) || leb (2 ^ 64 - 2 ^ 47) a) a)
        × (new (X86Space.physical_space bits) a ≡ only_if (ltb a (2 ^ 52)) a)
        × (new (Aarch64Space.virtual_space bits) a ≡ only_if (ltb a (2 ^ 48)) a)
        × (new (Aarch64Space.physical_space bits) a ≡ only_if (ltb a (2 ^ 48)) a)
  unfolding new X86Space.virtual_space X86Space.physical_space Aarch64Space.virtual_space
      Aarch64Space.physical_space X86.is_canonical_virtual_address X86.is_canonical_physical_address
      Aarch64.is_canonical_virtual_address Aarch64.is_canonical_physical_address
  new_accepts a h =
      rw
        (
          bits.get_bits_lem a 47 64 h (omega arith) (omega arith),
          bits.get_bits_lem a 52 64 h (omega arith) (omega arith),
          bits.get_bits_lem a 48 64 h (omega arith) (omega arith),
        )
        (ground (arith, h), ground (arith, h), ground (arith, h), ground (arith, h))
