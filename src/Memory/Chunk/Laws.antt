-- ===== src/Memory/Chunk/Laws.antt =====
-- Pages and frames against the addresses in them.
use uefi_bootloader.Prelude.{
  ℕ, ◌+◌, ◌*◌, ◌/◌, ◌^◌, ◌≤◌, ◌<◌, ◌≡◌, ap, ◌∙◌, ◌↔◌, none, some, arith, bit_and_ones,
}
use uefi_bootloader.Memory.Address.{AddressSpace, Address, offset}
use uefi_bootloader.Memory.Chunk.{
  Chunk, max_page_number, start_address, containing_address, add, sub, steps_between,
  forward_checked, backward_checked,
}

module _ (space : AddressSpace) where
  pub start_address_below : (c : Chunk) → c * 4096 < space.limit → start_address space c ≡ c * 4096
  unfolding start_address
  start_address_below c h =
      ap space.canonicalize (omega (arith, space.limit-le)) ∙ space.canonicalize_below (c * 4096) h

  -- A chunk below the limit is the one that contains its start address; and an address is the start
  -- of the chunk that contains it plus its offset there.
  pub containing_address-start_address :
      (c : Chunk) (a : Address)
      → c * 4096 < space.limit
      → a < space.limit
      → (containing_address (start_address space c) ≡ c)
        × (start_address space (containing_address a) + offset space a ≡ a)
  unfolding containing_address offset
  containing_address-start_address c a hc ha = (
    rw (start_address_below c hc) (omega arith),
    rw (start_address_below (a / 4096) (omega arith), bit_and_ones 12 a) (omega arith),
  )

pub add-below : (c n : ℕ) → c + n ≤ max_page_number → add c n ≡ c + n
unfolding add
add-below c n h = omega arith

-- `add` is plain addition up to the highest page number, where `sub` undoes it, and gives that number
-- for every sum above it, however large.
pub sub-add_clamped :
    (c n : ℕ)
    → (max_page_number ≤ c + n → add c n ≡ max_page_number)
      × (c + n ≤ max_page_number → (add c n ≡ c + n) × (sub (add c n) n ≡ c))
unfolding add sub
sub-add_clamped c n = (λ h. omega (arith, h), λ h. (omega arith, omega arith))

-- The steps of the iterator agree: `forward_checked` by the distance that `steps_between` reports
-- leads from the first chunk to the second, `backward_checked` leads back, and no distance is
-- reported exactly when the first lies above the second.
pub forward_checked-steps_between :
    (start end : Chunk)
    → end < 2 ^ 64
    → ((n : ℕ)
        → steps_between start end ≡ some n
        → (forward_checked start n ≡ some end) × (backward_checked end n ≡ some start))
      × ((steps_between start end ≡ none) ↔ (end < start))
unfolding steps_between forward_checked backward_checked
forward_checked-steps_between start end h =
    (λ n e. (ground arith, ground arith), (λ e. ground arith, λ e. ground arith))
