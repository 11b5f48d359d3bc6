-- ===== src/Memory/Address/Laws.antt =====
-- What the address types promise, for every architecture's notion of canonical.
use uefi_bootloader.Prelude.{
  ℕ, ◌+◌, ◌-◌, ◌^◌, ◌<◌, ◌≡◌, refl, sym, ap, ◌∙◌, ◌↔◌, some, arith, bit_and_ones,
}
use uefi_bootloader.Memory.Address.{AddressSpace, Address, new, new_canonical, offset, add, sub}

module _ (space : AddressSpace) where
  -- `new` accepts an address exactly when it is canonical, that is when `new_canonical` leaves it
  -- alone, and returns it unchanged.
  pub new-eq-some_iff :
      (a : ℕ) (b : Address)
      → a < 2 ^ 64
      → (new space a ≡ some b) ↔ ((b ≡ a) × (new_canonical space a ≡ a))
  unfolding new new_canonical
  new-eq-some_iff a b h = ground (arith, space.is_canonical_iff a h)

  -- `new_canonical` yields an address that `new` accepts, and that keeps its offset in the page.
  pub new-new_canonical :
      (a : ℕ)
      → a < 2 ^ 64
      → (new space (new_canonical space a) ≡ some (new_canonical space a))
        × (offset space (new_canonical space a) ≡ offset space a)
  unfolding new_canonical offset
  new-new_canonical a h = (
    (new-eq-some_iff (space.canonicalize a) (space.canonicalize a) (space.canonicalize-lt a h)).1
        (refl, space.canonicalize_twice a h),
    bit_and_ones 12 (space.canonicalize a) ∙ space.canonicalize-mod a h ∙ sym (bit_and_ones 12 a),
  )

  pub new_canonical_below : (a : ℕ) → a < space.limit → new_canonical space a ≡ a
  unfolding new_canonical
  new_canonical_below a h = space.canonicalize_below a h

  pub add-below : (a n : ℕ) → a + n < space.limit → add space a n ≡ a + n
  unfolding add
  add-below a n h =
      ap space.canonicalize (omega (arith, space.limit-le)) ∙ space.canonicalize_below (a + n) h

  pub sub-below : (a n : ℕ) → a < space.limit → sub space a n ≡ a - n
  unfolding sub
  sub-below a n h = space.canonicalize_below (a - n) (omega arith)

  pub add-canonical :
      (a n : ℕ) → a + n < 2 ^ 64 → space.canonicalize (a + n) ≡ a + n → add space a n ≡ a + n
  unfolding add
  add-canonical a n h e = ap space.canonicalize (omega arith) ∙ e

  pub sub-canonical : (a n : ℕ) → space.canonicalize (a - n) ≡ a - n → sub space a n ≡ a - n
  unfolding sub
  sub-canonical a n e = e

  -- Below the limit `add` and `sub` are plain addition and subtraction, so `sub` undoes `add`.
  pub sub-add :
      (a n : ℕ) → a + n < space.limit → (add space a n ≡ a + n) × (sub space (add space a n) n ≡ a)
  sub-add a n h = (add-below a n h, rw (add-below a n h) (sub-below (a + n) n h ∙ omega arith))

  -- No sum or difference leaves the machine word, however large the operands.
  pub add-sub-lt : (a n : ℕ) → a < 2 ^ 64 → (add space a n < 2 ^ 64) × (sub space a n < 2 ^ 64)
  unfolding add sub
  add-sub-lt a n h = (space.canonicalize-lt _ (omega arith), space.canonicalize-lt _ (omega arith))
