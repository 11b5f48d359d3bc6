-- ===== src/PageAllocator/Aarch64.antt =====
-- `PageAllocator::get_free_address` of uefi-bootloader/src/arch/aarch64/memory.rs.
use uefi_bootloader.Prelude.{
  ℕ, ◌+◌, ◌*◌, ◌^◌, ◌≤◌, ◌<◌, ◌≡◌, refl, ◌⊎◌, inl, inr, true, some, arith, ltb, ltb→lt, ltb→le,
  Bool-cases, length, Outcome, ◌>>=◌, expect, ok, panic,
}
use uefi_bootloader.Memory.Address.{Address, new, new_canonical}
use uefi_bootloader.Arch.{BitField}
use uefi_bootloader.Arch.Aarch64.{canonicalize_virtual_address}
use uefi_bootloader.Arch.Aarch64.Canonical.{virtual_space, virtual_closed}
use uefi_bootloader.Memory.Address.Laws.{new-eq-some_iff}
use uefi_bootloader.PageAllocator.{PageAllocator, get_free_entries, slots_for}
use uefi_bootloader.PageAllocator.Slots.{is_used}
use uefi_bootloader.PageAllocator.Place.{
  Places, slots_for_one, OneSlot, got, full, get_free_entries-OneSlot,
}

-- `address.set_bits(39..47, level_0_index)` on zero, and the address of the result.
unfoldable pub address_of : BitField → PageAllocator × ℕ → Outcome (PageAllocator × Address)
address_of bits (s, level_0_index) = bits.set_bits 0 39 47 level_0_index >>= λ address.
    expect (new (virtual_space bits) address) >>= λ a. ok (s, a)

unfoldable pub get_free_address : BitField → PageAllocator → ℕ → Outcome (PageAllocator × Address)
get_free_address bits s len = get_free_entries s (slots_for len) >>= address_of bits

module _ (bits : BitField) where
  address_of-low :
      (after : PageAllocator) (i : ℕ)
      → i < 256
      → address_of bits (after, i) ≡ ok (after, i * 2 ^ 39)
  unfolding address_of
  address_of-low after i h =
      let flat : 0 + i * 2 ^ 39 + 0 ≡ i * 2 ^ 39 = omega arith in
      let kept : canonicalize_virtual_address (i * 2 ^ 39) ≡ i * 2 ^ 39 =
        omega (arith, virtual_closed (i * 2 ^ 39)) in
      let made : new (virtual_space bits) (i * 2 ^ 39) ≡ some (i * 2 ^ 39) =
        (new-eq-some_iff (virtual_space bits) (i * 2 ^ 39) (i * 2 ^ 39) (omega arith)).1
          (refl, unfold new_canonical virtual_space in kept) in
      rw
        (
          bits.set_bits_fit 0 39 47 i (omega arith) (omega arith) (omega arith) (omega arith),
          flat,
          made,
        )
        refl

  address_of-high : (after : PageAllocator) (i : ℕ) → 256 ≤ i → address_of bits (after, i) ≡ panic
  unfolding address_of
  address_of-high after i h =
      rw (bits.set_bits_wide 0 39 47 i (omega arith) (omega arith) (omega arith)) refl

  -- What follows the search.
  finish : Outcome (PageAllocator × ℕ) → Outcome (PageAllocator × Address)
  finish r = r >>= address_of bits

  finish-Places :
      (s : PageAllocator) (len : ℕ) {r : Outcome (PageAllocator × ℕ)}
      → len ≤ 2 ^ 39
      → OneSlot s r
      → Places (virtual_space bits) s len (finish r)
        ⊎ ((finish r ≡ panic) × ((i : ℕ) → i < 256 → is_used s i ≡ true))
  unfolding finish
  finish-Places s len small (got after i lt size was_free lowest marked others) =
      elim (Bool-cases (ltb i 256)) [
        | inl e ↦
            let low : i < 256 = ltb→lt i 256 e in
            inl (record {
              after = after;
              address = i * 2 ^ 39;
              slot = i;
              returns = address_of-low after i low;
              size = size;
              was_free = was_free;
              lowest = lowest;
              marked = marked;
              others = others;
              aligned = omega arith;
              bytes = λ k h.
                  unfold virtual_space in
                  (omega arith, omega (arith, virtual_closed (i * 2 ^ 39 + k)));
            })
        | inr e ↦
            let high : 256 ≤ i = ltb→le i 256 e in
            inr (address_of-high after i high, λ j lt. lowest j (omega arith))
      ]
  finish-Places s len small (full used) = inr (refl, λ i _. used i)

  -- For 1 to `2 ^ 39` bytes, `get_free_address` gives out the lowest free slot if that is one of the
  -- first 256; if these are all taken, it panics, whatever is free above.
  pub get_free_address_low-Places :
      (s : PageAllocator) (len : ℕ)
      → length s.entries ≡ 512
      → 0 < len
      → len ≤ 2 ^ 39
      → Places (virtual_space bits) s len (get_free_address bits s len)
        ⊎ ((get_free_address bits s len ≡ panic) × ((i : ℕ) → i < 256 → is_used s i ≡ true))
  unfolding get_free_address finish
  get_free_address_low-Places s len size pos small =
      rw (slots_for_one len pos small) (finish-Places s len small (get_free_entries-OneSlot s size))
