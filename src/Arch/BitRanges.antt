-- ===== src/Arch/BitRanges.antt =====
-- The interface `BitField` can be met: bit ranges by division and remainder.
use uefi_bootloader.Prelude.{
  ℕ, ◌+◌, ◌-◌, ◌*◌, ◌/◌, ◌%◌, ◌^◌, ◌≤◌, ◌<◌, ◌≡◌, refl, arith, ltb, if◌then◌else◌, Outcome, ok,
  panic,
}
use uefi_bootloader.Arch.{BitField}

unfoldable pub overwrite : ℕ → ℕ → ℕ → ℕ → Outcome ℕ
overwrite x lo hi v =
    if ltb v (2 ^ (hi - lo)) then ok (x / 2 ^ hi * 2 ^ hi + v * 2 ^ lo + x % 2 ^ lo) else panic

pub overwrite_fit :
    (x lo hi v : ℕ)
    → v < 2 ^ (hi - lo)
    → overwrite x lo hi v ≡ ok (x / 2 ^ hi * 2 ^ hi + v * 2 ^ lo + x % 2 ^ lo)
unfolding overwrite
overwrite_fit x lo hi v fits = ground arith

pub overwrite_wide : (x lo hi v : ℕ) → 2 ^ (hi - lo) ≤ v → overwrite x lo hi v ≡ panic
unfolding overwrite
overwrite_wide x lo hi v wide = ground arith

abbrev pub bit_ranges : BitField
bit_ranges = record {
  get_bits = λ x lo hi. x / 2 ^ lo % 2 ^ (hi - lo);
  set_bits = overwrite;
  get_bits_lem = λ x lo hi h p q. refl;
  set_bits_fit = λ x lo hi v h p q fits. overwrite_fit x lo hi v fits;
  set_bits_wide = λ x lo hi v p q wide. overwrite_wide x lo hi v wide;
}
