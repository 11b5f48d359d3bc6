-- ===== src/Memory/Range/Laws.antt =====
-- Ranges against the bytes that they cover: addresses, offsets and sizes.
use uefi_bootloader.Prelude.{
  ℕ, ◌+◌, ◌-◌, ◌*◌, ◌/◌, ◌≤◌, ◌<◌, ◌≡◌, refl, ap, ◌↔◌, inl, inr, true, false, none, some, arith,
  leb, if◌then◌else◌, Bool-cases, ◌-w◌, ok, panic,
}
use uefi_bootloader.Memory.Address.{AddressSpace, Address, add}
use uefi_bootloader.Memory.Address.Laws.{add-below}
use uefi_bootloader.Memory.Chunk.Laws.{start_address_below}
use uefi_bootloader.Memory.Range.{
  ChunkRange, new, contains, size_in_bytes, contains_address, from_addr, start_address,
  offset_of_address, address_at_offset,
}

-- The range is not empty, and all its bytes lie below the limit.
pub record Fits (space : AddressSpace) (r : ChunkRange) : Type 0 where
  pub ordered : r.start ≤ r.end
  pub below : (r.end + 1) * 4096 < space.limit

-- A range contains exactly the addresses from the start of its first chunk to the end of its last.
pub contains_address_iff :
    (r : ChunkRange) (a : Address)
    → (contains_address r a ≡ true) ↔ ((r.start * 4096 ≤ a) × (a < (r.end + 1) * 4096))
unfolding contains_address
contains_address_iff r a = (λ e. ground arith, λ e. ground arith)

module _ (space : AddressSpace) (r : ChunkRange) (fits : Fits space r) where
  size_in_bytes-eq : size_in_bytes r ≡ (r.end + 1) * 4096 - r.start * 4096
  unfolding size_in_bytes
  size_in_bytes-eq = omega (arith, fits.ordered, fits.below, space.limit-le)

  start_address-eq : start_address space r ≡ r.start * 4096
  unfolding start_address
  start_address-eq = start_address_below space r.start (omega (arith, fits.ordered, fits.below))

  pub offset_of_address-eq :
      (a : Address)
      → offset_of_address space r a
        ≡ (if contains_address r a then some (a - r.start * 4096) else none)
  unfolding offset_of_address
  offset_of_address-eq a = elim (Bool-cases (contains_address r a)) [
    | inl e ↦
        let h = (contains_address_iff r a).0 e in
        rw (e, start_address-eq) (ap some (omega (arith, h.0, h.1, fits.below, space.limit-le)))
    | inr e ↦ rw e
  ]

  pub address_at_offset-eq :
      (n : ℕ)
      → address_at_offset space r n
        ≡ (if leb n ((r.end + 1) * 4096 - r.start * 4096) then some (r.start * 4096 + n) else none)
  unfolding address_at_offset
  address_at_offset-eq n = elim (Bool-cases (leb n ((r.end + 1) * 4096 - r.start * 4096))) [
    | inl e ↦
        rw (size_in_bytes-eq, e, start_address-eq)
          (ap some (add-below space (r.start * 4096) n (ground (arith, fits.ordered, fits.below))))
    | inr e ↦ rw (size_in_bytes-eq, e)
  ]

  -- In a range that fits the address space, `offset_of_address` and `address_at_offset` are inverse:
  -- an address of the range has an offset, which leads back to it, and an offset below the size in
  -- bytes has an address in the range, which leads back to it.
  pub address_at_offset-offset_of_address :
      (a n : ℕ)
      → (offset_of_address space r a ≡ some n)
        ↔ ((address_at_offset space r n ≡ some a) × (n < size_in_bytes r))
  address_at_offset-offset_of_address a n =
      rw (offset_of_address-eq a, address_at_offset-eq n, size_in_bytes-eq)
        (
          λ e. ground (arith, (contains_address_iff r a).0),
          λ e. ground (arith, (contains_address_iff r a).1, fits.ordered),
        )

  -- At the size in bytes itself `address_at_offset` still returns an address, and the range does
  -- not contain it.
  pub address_at_offset-size_in_bytes :
      (a : Address) × (address_at_offset space r (size_in_bytes r) ≡ some a)
      × (contains_address r a ≡ false)
      × (offset_of_address space r a ≡ none)
  address_at_offset-size_in_bytes = (
    (r.end + 1) * 4096,
    rw (address_at_offset-eq, size_in_bytes-eq) (ground (arith, fits.ordered)),
    outside,
    rw (offset_of_address-eq, outside),
  )
    where
      outside : contains_address r ((r.end + 1) * 4096) ≡ false
      outside = ground (arith, (contains_address_iff r ((r.end + 1) * 4096)).0)

from_addr-eq :
    (space : AddressSpace) (a size : ℕ)
    → 0 < size
    → from_addr space a size ≡ ok (new (a / 4096) (add space a (size -w 1) / 4096))
unfolding from_addr
from_addr-eq space a size pos = ground arith

last_chunk :
    (space : AddressSpace) (a size : ℕ)
    → a + size ≤ space.limit
    → 0 < size
    → new (a / 4096) (add space a (size -w 1) / 4096) ≡ new (a / 4096) ((a + (size - 1)) / 4096)
last_chunk space a size h pos =
    let e : size -w 1 ≡ size - 1 = omega (arith, space.limit-le) in
    rw (e, add-below space a (size - 1) (omega arith))

-- For at least one byte, all below the limit, `from_addr` returns the range of exactly the chunks
-- that hold a byte of `[a, a + size)`; for no byte it panics.
pub from_addr-contains :
    (space : AddressSpace) (a size : ℕ)
    → a + size ≤ space.limit
    → (from_addr space a 0 ≡ panic)
      × (0 < size
          → (r : ChunkRange) × (from_addr space a size ≡ ok r)
            × ((c : ℕ) → (contains r c ≡ true) ↔ ((c * 4096 < a + size) × (a < (c + 1) * 4096))))
unfolding from_addr
from_addr-contains space a size h = (
  refl,
  λ pos. (
    record { start = a / 4096; end = (a + (size - 1)) / 4096 },
    rw (from_addr-eq space a size pos) (ap ok (last_chunk space a size h pos)),
    λ c. (λ t. ground arith, λ t. ground arith),
  ),
)
