-- ===== src/PageAllocator/Apart.antt =====
-- Kernel segments and the memory that the bootloader places afterwards never share an address.
use uefi_bootloader.Prelude.{
  ℕ, ◌+◌, ◌-◌, ◌^◌, ◌≤◌, ◌<◌, ◌≡◌, refl, sym, ◌≢◌, inl, inr, true, arith, length, saturating_add,
  Outcome, ok,
}
use uefi_bootloader.Arch.{BitField}
use uefi_bootloader.Arch.X86.Canonical as X86Space
use uefi_bootloader.Arch.Aarch64.Canonical as Aarch64Space
use uefi_bootloader.Memory.Address.{AddressSpace, new_canonical, add, sub}
use uefi_bootloader.Arch.Aarch64 as Aarch64Arch
use uefi_bootloader.PageAllocator.{ProgramHeader, PageAllocator, use_entries, mark_segment_as_used}
use uefi_bootloader.PageAllocator.Slots.{
  is_used, InHalf, Marks, slot_of, top_index-eq, mark_segment_as_used-Marks,
}
use uefi_bootloader.PageAllocator.Place.{Places, Places-apart}
use uefi_bootloader.PageAllocator.X86
use uefi_bootloader.PageAllocator.Aarch64
use uefi_bootloader.PageAllocator.X86.{Paging}

-- Whatever is placed after the segment was marked lies apart from it.
placed_apart :
    {space : AddressSpace} {s s' s'' : PageAllocator} {v n len a : ℕ}
    {marked : Outcome PageAllocator} {placed : Outcome (PageAllocator × ℕ)}
    → Marks s v n marked
    → marked ≡ ok s'
    → Places space s' len placed
    → placed ≡ ok (s'', a)
    → (j k : ℕ) → j < n
    → k < len
    → a + k ≢ v + j
placed_apart {s'} {v} {a} m e p f j k hj hk same =
    let after : m.after ≡ s' = cc (m.returns, e) in
    let at : p.address ≡ a = cc (p.returns, f) in
    let used : is_used s' (slot_of (v + j)) ≡ true = rw (sym after) (m.bytes j hj) in
    Places-apart p (v + j) used k hk (rw at same)

module _ (bits : BitField) (paging : Paging) where
  -- On x86_64: once a segment of at least one byte is marked whose addresses, that of the byte after its
  -- last one included, are canonical and of one half of the address space, an address that
  -- `get_free_address` returns for up to `2 ^ 39` bytes starts memory that shares no byte with the
  -- segment.
  pub x86_64_apart :
      (s s' s'' : PageAllocator) (segment : ProgramHeader) (len a : ℕ)
      → length s.entries ≡ 512
      → 0 < segment.p_memsz
      → InHalf (X86Space.virtual_space bits) segment.p_vaddr segment.p_memsz
      → mark_segment_as_used (X86Space.virtual_space bits) s segment ≡ ok s'
      → 0 < len
      → len ≤ 2 ^ 39
      → X86.get_free_address bits paging s' len ≡ ok (s'', a)
      → (j k : ℕ) → j < segment.p_memsz
      → k < len
      → a + k ≢ segment.p_vaddr + j
  x86_64_apart s s' s'' segment len a size pos half marked some_len small placed =
      let space = X86Space.virtual_space bits in
      let m = mark_segment_as_used-Marks space s segment size pos half in
      let size' : length s'.entries ≡ 512 =
        let after : m.after ≡ s' = cc (m.returns, marked) in rw (sym after) m.size in
      elim (X86.get_free_address-Places bits paging s' len size' some_len small) [
        | inl p ↦ placed_apart m marked p placed
        | inr e ↦ absurd (cc (e.0, placed))
      ]

module _ (bits : BitField) where
  -- On aarch64: once a segment of at least one byte is marked whose addresses, that of the byte after its
  -- last one included, are canonical and of one half of the address space, an address that
  -- `get_free_address` returns for up to `2 ^ 39` bytes starts memory that shares no byte with the
  -- segment.
  pub aarch64_apart :
      (s s' s'' : PageAllocator) (segment : ProgramHeader) (len a : ℕ)
      → length s.entries ≡ 512
      → 0 < segment.p_memsz
      → InHalf (Aarch64Space.virtual_space bits) segment.p_vaddr segment.p_memsz
      → mark_segment_as_used (Aarch64Space.virtual_space bits) s segment ≡ ok s'
      → 0 < len
      → len ≤ 2 ^ 39
      → Aarch64.get_free_address bits s' len ≡ ok (s'', a)
      → (j k : ℕ) → j < segment.p_memsz
      → k < len
      → a + k ≢ segment.p_vaddr + j
  aarch64_apart s s' s'' segment len a size pos half marked some_len small placed =
      let space = Aarch64Space.virtual_space bits in
      let m = mark_segment_as_used-Marks space s segment size pos half in
      let size' : length s'.entries ≡ 512 =
        let after : m.after ≡ s' = cc (m.returns, marked) in rw (sym after) m.size in
      elim (Aarch64.get_free_address_low-Places bits s' len size' some_len small) [
        | inl p ↦ placed_apart m marked p placed
        | inr e ↦ absurd (cc (e.0, placed))
      ]

  -- On aarch64: a segment that ends where the address space does, at `2 ^ 48`, and starts after the
  -- first slot is not marked at all, since the address after it is taken for 0.
  pub mark_segment_as_used_at_end :
      (s : PageAllocator) (segment : ProgramHeader)
      → segment.p_vaddr + segment.p_memsz ≡ 2 ^ 48
      → 0 < segment.p_memsz
      → 2 ^ 39 ≤ segment.p_vaddr
      → mark_segment_as_used (Aarch64Space.virtual_space bits) s segment ≡ ok s
  unfolding mark_segment_as_used new_canonical add sub Aarch64Space.virtual_space use_entries
  mark_segment_as_used_at_end s segment end pos after_first =
      let v = segment.p_vaddr in
      let first : Aarch64Arch.canonicalize_virtual_address v ≡ v =
        omega (arith, Aarch64Space.virtual_closed v, end, pos) in
      let past : Aarch64Arch.canonicalize_virtual_address (saturating_add v segment.p_memsz) ≡ 0 =
        omega (arith, Aarch64Space.virtual_closed (saturating_add v segment.p_memsz), end) in
      let last : Aarch64Arch.canonicalize_virtual_address 0 ≡ 0 =
        omega (arith, Aarch64Space.virtual_closed 0) in
      let none_there : slot_of 0 + 1 - slot_of v ≡ 0 = omega (arith, end, pos, after_first) in
      rw (first, past, last, top_index-eq v, top_index-eq 0, none_there) refl
