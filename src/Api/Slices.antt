-- ===== src/Api/Slices.antt =====
-- Slices in memory, for uefi-bootloader-api/src/lib.rs.
use uefi_bootloader.Prelude.{
  ℕ, zero, suc, ◌+◌, ◌*◌, List, [], ◌∷◌, ltb, ◌==◌, if◌then◌else◌, Outcome, ◌>>◌, guard, ok,
}
use uefi_bootloader.Memory.Address.{Address}

-- `&'static mut [T]`: where it starts, and how many elements it has.
pub record StaticSlice : Type 0 where
  pub as_mut_ptr : Address
  pub len : ℕ

module _ {ℓ} {T : Type ℓ} where
  -- `slice::from_raw_parts`: the elements that stand in memory, one after the other.
  abbrev pub from_raw_parts : (Address → T) → ℕ → Address → ℕ → List T
  from_raw_parts memory size_of ptr zero = []
  from_raw_parts memory size_of ptr (suc len) =
      memory ptr ∷ from_raw_parts memory size_of (ptr + size_of) len

  -- `slice::from_raw_parts_mut(ptr, len)[i] = v`
  abbrev pub write_element : (Address → T) → ℕ → Address → ℕ → ℕ → T → Outcome (Address → T)
  write_element memory size_of ptr len i v =
      guard (ltb i len) >> ok (λ x. if x == ptr + i * size_of then v else memory x)
