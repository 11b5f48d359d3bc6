-- ===== src/Arch.antt =====
-- uefi-bootloader/src/arch: what the two architectures share. `BitField` stands for the crate
-- `bit_field`, of which both use the bit ranges of a 64-bit number.
pub mod Canonical
pub mod Fields
pub mod BitRanges
pub mod X86
pub mod Aarch64
pub mod Machine
mod Tests
use uefi_bootloader.Prelude.{ℕ, ◌+◌, ◌-◌, ◌*◌, ◌/◌, ◌%◌, ◌^◌, ◌≤◌, ◌<◌, ◌≡◌, Outcome, ok, panic}

-- `get_bits(lo..hi)` reads the bits `lo` to `hi - 1`; `set_bits(lo..hi, v)` overwrites them, and
-- panics on a value that does not fit there.
pub record BitField : Type 0 where
  pub get_bits : ℕ → ℕ → ℕ → ℕ
  pub set_bits : ℕ → ℕ → ℕ → ℕ → Outcome ℕ
  pub get_bits_lem :
      (x lo hi : ℕ) → x < 2 ^ 64 → lo < hi → hi ≤ 64 → get_bits x lo hi ≡ x / 2 ^ lo % 2 ^ (hi - lo)
  pub set_bits_fit :
      (x lo hi v : ℕ)
      → x < 2 ^ 64
      → lo < hi
      → hi ≤ 64
      → v < 2 ^ (hi - lo)
      → set_bits x lo hi v ≡ ok (x / 2 ^ hi * 2 ^ hi + v * 2 ^ lo + x % 2 ^ lo)
  pub set_bits_wide :
      (x lo hi v : ℕ) → lo < hi → hi ≤ 64 → 2 ^ (hi - lo) ≤ v → set_bits x lo hi v ≡ panic
