-- ===== src/Arch/Aarch64/Canonical.antt =====
-- The aarch64 functions meet the interface of the address types.
use uefi_bootloader.Prelude.{ℕ, ◌%◌, ◌^◌, ◌<◌, ◌≡◌, ◌↔◌, true, arith, bit_and_ones}
use uefi_bootloader.Memory.Address.{AddressSpace}
use uefi_bootloader.Arch.{BitField}
use uefi_bootloader.Arch.Aarch64.{
  is_canonical_virtual_address, canonicalize_virtual_address, is_canonical_physical_address,
  canonicalize_physical_address,
}

-- An address keeps its lowest 48 bits.
pub virtual_closed : (a : ℕ) → canonicalize_virtual_address a ≡ a % 2 ^ 48
unfolding canonicalize_virtual_address
virtual_closed a = bit_and_ones 48 a

pub physical_closed : (a : ℕ) → canonicalize_physical_address a ≡ a % 2 ^ 48
unfolding canonicalize_physical_address
physical_closed a = bit_and_ones 48 a

module _ (bits : BitField) where
  pub virtual_iff :
      (a : ℕ)
      → a < 2 ^ 64
      → (is_canonical_virtual_address bits a ≡ true) ↔ (canonicalize_virtual_address a ≡ a)
  unfolding is_canonical_virtual_address
  virtual_iff a h =
      rw (bits.get_bits_lem a 48 64 h (omega arith) (omega arith), virtual_closed a)
        (λ e. ground arith, λ e. ground arith)

  pub physical_iff :
      (a : ℕ)
      → a < 2 ^ 64
      → (is_canonical_physical_address bits a ≡ true) ↔ (canonicalize_physical_address a ≡ a)
  unfolding is_canonical_physical_address
  physical_iff a h =
      rw (bits.get_bits_lem a 48 64 h (omega arith) (omega arith), physical_closed a)
        (λ e. ground arith, λ e. ground arith)

  -- `VirtualAddress` and `PhysicalAddress`: exactly the addresses below `2 ^ 48` are canonical.
  unfoldable pub virtual_space : AddressSpace
  virtual_space = record {
    is_canonical = is_canonical_virtual_address bits;
    canonicalize = canonicalize_virtual_address;
    limit = 2 ^ 48;
    limit-le = omega arith;
    canonicalize-lt = λ a h. omega (arith, virtual_closed a);
    canonicalize_below = λ a h. omega (arith, virtual_closed a);
    canonicalize_twice =
        λ a h. omega (arith, virtual_closed a, virtual_closed (canonicalize_virtual_address a));
    canonicalize-mod = λ a h. omega (arith, virtual_closed a);
    is_canonical_iff = virtual_iff;
  }

  unfoldable pub physical_space : AddressSpace
  physical_space = record {
    is_canonical = is_canonical_physical_address bits;
    canonicalize = canonicalize_physical_address;
    limit = 2 ^ 48;
    limit-le = omega arith;
    canonicalize-lt = λ a h. omega (arith, physical_closed a);
    canonicalize_below = λ a h. omega (arith, physical_closed a);
    canonicalize_twice =
        λ a h. omega (arith, physical_closed a, physical_closed (canonicalize_physical_address a));
    canonicalize-mod = λ a h. omega (arith, physical_closed a);
    is_canonical_iff = physical_iff;
  }
