-- ===== src/Arch/X86/Canonical.antt =====
-- The x86_64 functions meet the interface of the address types, and the sign extension by shifts is
-- the one by bit ranges that its comment gives.
use uefi_bootloader.Prelude.{
  ℕ, ◌+◌, ◌-◌, ◌%◌, ◌^◌, ◌<◌, ◌≡◌, ◌↔◌, true, arith, ltb, ◌==◌, if◌then◌else◌, bit_and_ones,
  Outcome, ok,
}
use uefi_bootloader.Memory.Address.{AddressSpace}
use uefi_bootloader.Arch.{BitField}
use uefi_bootloader.Arch.X86.{
  is_canonical_virtual_address, canonicalize_virtual_address, is_canonical_physical_address,
  canonicalize_physical_address,
}

-- The code in the comment of `canonicalize_virtual_address`: the upper 16 bits become copies of
-- bit 47.
unfoldable pub sign_extend : BitField → ℕ → Outcome ℕ
sign_extend bits virt_addr =
    if bits.get_bits virt_addr 47 48 == 0
    then bits.set_bits virt_addr 48 64 0
    else bits.set_bits virt_addr 48 64 0xffff

pub canonical_closed :
    (a : ℕ)
    → a < 2 ^ 64
    → canonicalize_virtual_address a
      ≡ (if ltb (a % 2 ^ 48) (2 ^ 47) then a % 2 ^ 48 else a % 2 ^ 48 + (2 ^ 64 - 2 ^ 48))
unfolding canonicalize_virtual_address
canonical_closed a h = ground arith

module _ (bits : BitField) where
  -- The shifts compute what the comment's bit ranges do, at every machine word.
  pub canonicalize_virtual_address-sign_extend :
      (a : ℕ) → a < 2 ^ 64 → sign_extend bits a ≡ ok (canonicalize_virtual_address a)
  unfolding sign_extend
  canonicalize_virtual_address-sign_extend a h =
      rw
        (
          bits.get_bits_lem a 47 48 h (omega arith) (omega arith),
          bits.set_bits_fit a 48 64 0 h (omega arith) (omega arith) (omega arith),
          bits.set_bits_fit a 48 64 0xffff h (omega arith) (omega arith) (omega arith),
          canonical_closed a h,
        )
        (ground arith)

  pub virtual_iff :
      (a : ℕ)
      → a < 2 ^ 64
      → (is_canonical_virtual_address bits a ≡ true) ↔ (canonicalize_virtual_address a ≡ a)
  unfolding is_canonical_virtual_address
  virtual_iff a h =
      rw (bits.get_bits_lem a 47 64 h (omega arith) (omega arith), canonical_closed a h)
        (λ e. ground arith, λ e. ground arith)

  pub physical_iff :
      (a : ℕ)
      → a < 2 ^ 64
      → (is_canonical_physical_address bits a ≡ true) ↔ (canonicalize_physical_address a ≡ a)
  unfolding is_canonical_physical_address canonicalize_physical_address
  physical_iff a h =
      rw (bits.get_bits_lem a 52 64 h (omega arith) (omega arith), bit_and_ones 52 a)
        (λ e. ground arith, λ e. ground arith)

pub virtual_twice :
    (a : ℕ)
    → a < 2 ^ 64
    → canonicalize_virtual_address (canonicalize_virtual_address a) ≡ canonicalize_virtual_address a
virtual_twice a h =
    let small : canonicalize_virtual_address a < 2 ^ 64 = ground (arith, canonical_closed a h) in
    ground (arith, canonical_closed a h, canonical_closed (canonicalize_virtual_address a) small)

pub virtual-lt : (a : ℕ) → a < 2 ^ 64 → canonicalize_virtual_address a < 2 ^ 64
virtual-lt a h = ground (arith, canonical_closed a h)

pub virtual_below : (a : ℕ) → a < 2 ^ 47 → canonicalize_virtual_address a ≡ a
virtual_below a h = ground (arith, canonical_closed a)

pub virtual-mod : (a : ℕ) → a < 2 ^ 64 → canonicalize_virtual_address a % 4096 ≡ a % 4096
virtual-mod a h = ground (arith, canonical_closed a h)

-- A physical address keeps its lowest 52 bits.
pub physical_closed : (a : ℕ) → canonicalize_physical_address a ≡ a % 2 ^ 52
unfolding canonicalize_physical_address
physical_closed a = bit_and_ones 52 a

module _ (bits : BitField) where
  -- `VirtualAddress`: below `2 ^ 47` every address is canonical.
  unfoldable pub virtual_space : AddressSpace
  virtual_space = record {
    is_canonical = is_canonical_virtual_address bits;
    canonicalize = canonicalize_virtual_address;
    limit = 2 ^ 47;
    limit-le = omega arith;
    canonicalize-lt = virtual-lt;
    canonicalize_below = virtual_below;
    canonicalize_twice = virtual_twice;
    canonicalize-mod = virtual-mod;
    is_canonical_iff = virtual_iff bits;
  }

  -- `PhysicalAddress`: exactly the addresses below `2 ^ 52` are canonical.
  unfoldable pub physical_space : AddressSpace
  physical_space = record {
    is_canonical = is_canonical_physical_address bits;
    canonicalize = canonicalize_physical_address;
    limit = 2 ^ 52;
    limit-le = omega arith;
    canonicalize-lt = λ a h. omega (arith, physical_closed a);
    canonicalize_below = λ a h. omega (arith, physical_closed a);
    canonicalize_twice =
        λ a h. omega (arith, physical_closed a, physical_closed (canonicalize_physical_address a));
    canonicalize-mod = λ a h. omega (arith, physical_closed a);
    is_canonical_iff = physical_iff bits;
  }
