-- ===== src/PageAllocator/X86.antt =====
-- `PageAllocator::get_free_address` of uefi-bootloader/src/arch/x86_64/memory.rs. `Paging` stands for
-- what it calls of the crate `x86_64`.
use uefi_bootloader.Prelude.{
  ℕ, ◌+◌, ◌*◌, ◌^◌, ◌≤◌, ◌<◌, ◌≡◌, refl, ◌⊎◌, inl, inr, true, arith, ltb, length, Outcome, ◌>>=◌,
  ◌>>◌, guard, ok, panic,
}
use uefi_bootloader.Memory.Address.{Address, new_canonical}
use uefi_bootloader.Arch.{BitField}
use uefi_bootloader.Arch.X86.{canonicalize_virtual_address}
use uefi_bootloader.Arch.X86.Canonical.{virtual_space, canonical_closed, virtual_twice}
use uefi_bootloader.PageAllocator
use uefi_bootloader.PageAllocator.{PageAllocator, slots_for}
use uefi_bootloader.PageAllocator.Slots.{is_used, slot_of}
use uefi_bootloader.PageAllocator.Place.{
  Places, slots_for_one, OneSlot, got, full, get_free_entries-OneSlot,
}

-- `PageTableIndex::new`, which panics from 512 on, and the start address of
-- `Page::from_page_table_indices_1gib`, the sign extension of its indices' bits.
pub record Paging : Type 0 where
  pub page_table_index : ℕ → Outcome ℕ
  pub page_table_index-ok : (i : ℕ) → i < 512 → page_table_index i ≡ ok i
  pub start_of_1gib : ℕ → ℕ → ℕ
  pub start_of_1gib_lem :
      (p4 p3 : ℕ)
      → p4 < 512
      → p3 < 512
      → start_of_1gib p4 p3 ≡ canonicalize_virtual_address (p4 * 2 ^ 39 + p3 * 2 ^ 30)

-- The end of `get_free_entries`: the index as a `PageTableIndex`.
unfoldable pub table_index : Paging → PageAllocator × ℕ → Outcome (PageAllocator × ℕ)
table_index paging (s, idx) =
    guard (ltb idx (2 ^ 16)) >> (paging.page_table_index idx >>= λ p4. ok (s, p4))

unfoldable pub get_free_entries : Paging → PageAllocator → ℕ → Outcome (PageAllocator × ℕ)
get_free_entries paging s num = PageAllocator.get_free_entries s num >>= table_index paging

-- The page at an index, its start address and its conversion.
unfoldable pub address_of :
    BitField → Paging → PageAllocator × ℕ → Outcome (PageAllocator × Address)
address_of bits paging (s, p4) = paging.page_table_index 0 >>= λ p3.
    ok (s, new_canonical (virtual_space bits) (paging.start_of_1gib p4 p3))

unfoldable pub get_free_address :
    BitField → Paging → PageAllocator → ℕ → Outcome (PageAllocator × Address)
get_free_address bits paging s len =
    get_free_entries paging s (slots_for len) >>= address_of bits paging

table_index-eq :
    (paging : Paging) (after : PageAllocator) (i : ℕ)
    → i < 512
    → table_index paging (after, i) ≡ ok (after, i)
unfolding table_index
table_index-eq paging after i h = rw (paging.page_table_index-ok i h) (ground arith)

address_of-eq :
    (bits : BitField) (paging : Paging) (after : PageAllocator) (i : ℕ)
    → i < 512
    → address_of bits paging (after, i) ≡ ok (after, canonicalize_virtual_address (i * 2 ^ 39))
unfolding address_of new_canonical virtual_space
address_of-eq bits paging after i h =
    let flat : i * 2 ^ 39 + 0 * 2 ^ 30 ≡ i * 2 ^ 39 = omega arith in
    rw
      (
        paging.page_table_index-ok 0 (omega arith),
        paging.start_of_1gib_lem i 0 h (omega arith),
        flat,
        virtual_twice (i * 2 ^ 39) (omega arith),
      )
      refl

at_slot :
    (i k : ℕ)
    → i < 512
    → k < 2 ^ 39
    → (slot_of (canonicalize_virtual_address (i * 2 ^ 39) + k) ≡ i)
      × (canonicalize_virtual_address (canonicalize_virtual_address (i * 2 ^ 39) + k)
          ≡ canonicalize_virtual_address (i * 2 ^ 39) + k)
at_slot i k h lt =
    let small : canonicalize_virtual_address (i * 2 ^ 39) + k < 2 ^ 64 =
      ground (arith, canonical_closed (i * 2 ^ 39)) in
    (
      ground (arith, canonical_closed (i * 2 ^ 39)),
      ground (
        arith,
        canonical_closed (i * 2 ^ 39),
        canonical_closed (canonicalize_virtual_address (i * 2 ^ 39) + k) small,
      ),
    )

module _ (bits : BitField) (paging : Paging) where
  -- What follows the search.
  finish : Outcome (PageAllocator × ℕ) → Outcome (PageAllocator × Address)
  finish r = (r >>= table_index paging) >>= address_of bits paging

  finish-Places :
      (s : PageAllocator) (len : ℕ) {r : Outcome (PageAllocator × ℕ)}
      → len ≤ 2 ^ 39
      → OneSlot s r
      → Places (virtual_space bits) s len (finish r)
        ⊎ ((finish r ≡ panic) × ((i : ℕ) → is_used s i ≡ true))
  unfolding finish
  finish-Places s len small (got after i lt size was_free lowest marked others) = inl (record {
    after = after;
    address = canonicalize_virtual_address (i * 2 ^ 39);
    slot = i;
    returns = rw (table_index-eq paging after i lt) (address_of-eq bits paging after i lt);
    size = size;
    was_free = was_free;
    lowest = lowest;
    marked = marked;
    others = others;
    aligned = ground (arith, canonical_closed (i * 2 ^ 39));
    bytes = λ k h. unfold virtual_space in at_slot i k lt (omega arith);
  })
  finish-Places s len small (full used) = inr (refl, used)

  -- For 1 to `2 ^ 39` bytes, `get_free_address` gives out the lowest free slot, and panics only when
  -- all slots are taken.
  pub get_free_address-Places :
      (s : PageAllocator) (len : ℕ)
      → length s.entries ≡ 512
      → 0 < len
      → len ≤ 2 ^ 39
      → Places (virtual_space bits) s len (get_free_address bits paging s len)
        ⊎ ((get_free_address bits paging s len ≡ panic) × ((i : ℕ) → is_used s i ≡ true))
  unfolding get_free_address get_free_entries finish
  get_free_address-Places s len size pos small =
      rw (slots_for_one len pos small) (finish-Places s len small (get_free_entries-OneSlot s size))
