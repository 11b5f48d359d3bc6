-- ===== src/Arch/Aarch64/Entry.antt =====
-- `PageTableEntry` and the indices of a page in the four levels of tables, of
-- uefi-bootloader/src/arch/aarch64/memory.rs. An entry is a struct of one 64-bit word, which stands
-- for it here.
use uefi_bootloader.Prelude.{
  ℕ, ◌+◌, ◌-◌, ◌*◌, ◌/◌, ◌%◌, ◌^◌, ◌<◌, bit_and, bit_or, ◌≡◌, ◌≢◌, Bool, true, false, arith, ◌==◌,
  ◌<<<◌, ◌>>>◌, bit_not, bit_or-lt, bit_or-zero, bit_and-zero, bit_and_ones, bit_or-div, bit_or-mod,
  bit_or_bit,
}
use uefi_bootloader.Memory.Address.{Address, new_canonical, page_size}
use uefi_bootloader.Memory.Chunk.{Chunk, start_address}
use uefi_bootloader.Memory.Chunk.Laws.{start_address_below}
use uefi_bootloader.Arch.{BitField}
use uefi_bootloader.Arch.Fields.{bit_and-at}
use uefi_bootloader.Arch.Aarch64.Canonical.{physical_space, physical_closed}
use uefi_bootloader.Arch.Aarch64.Flags.{PteFlags, accessed, present-SetsField}

unfoldable pub p0_index : Chunk → ℕ
p0_index number = bit_and (number >>> 27) 0x1ff

unfoldable pub p1_index : Chunk → ℕ
p1_index number = bit_and (number >>> 18) 0x1ff

unfoldable pub p2_index : Chunk → ℕ
p2_index number = bit_and (number >>> 9) 0x1ff

unfoldable pub p3_index : Chunk → ℕ
p3_index number = bit_and number 0x1ff

-- The four indices are those of a table of 512 entries each, and determine the page, for every page
-- of a canonical address.
pub p0_index-p3_index :
    (c : Chunk)
    → c < 2 ^ 36
    → (p0_index c * 2 ^ 27 + p1_index c * 2 ^ 18 + p2_index c * 2 ^ 9 + p3_index c ≡ c)
      × (p0_index c < 512)
      × (p1_index c < 512)
      × (p2_index c < 512)
      × (p3_index c < 512)
unfolding p0_index p1_index p2_index p3_index
p0_index-p3_index c h =
    let a = bit_and_ones 9 (c / 2 ^ 27) in
    let b = bit_and_ones 9 (c / 2 ^ 18) in
    let d = bit_and_ones 9 (c / 2 ^ 9) in
    let e = bit_and_ones 9 c in
    (
      omega (arith, a, b, d, e),
      omega (arith, a),
      omega (arith, b),
      omega (arith, d),
      omega (arith, e),
    )

-- A frame's start combined with flags outside its bits, bit 10 among them.
bit_or_frame :
    (c g : ℕ)
    → c < 2 ^ 36
    → g < 2 ^ 64
    → g / 2 ^ 12 % 2 ^ 40 ≡ 0
    → g / 2 ^ 10 % 2 ≡ 1
    → (bit_or (c * 4096) g / 2 ^ 12 % 2 ^ 40 ≡ c)
      × (bit_or (c * 4096) g < 2 ^ 64)
      × (bit_or (c * 4096) g ≢ 0)
bit_or_frame c g hc hg none_there used =
    let whole : c * 4096 / 2 ^ 12 ≡ c = omega arith in
    let small : c % 2 ^ 40 ≡ c = omega arith in
    (
      rw
          (
            bit_or-div 12 (c * 4096) g,
            bit_or-mod 40 (c * 4096 / 2 ^ 12) (g / 2 ^ 12),
            whole,
            small,
            none_there,
          )
          (bit_or-zero c),
      bit_or-lt 64 (c * 4096) g (omega arith) hg,
      λ e. omega (arith, bit_or_bit 10 (c * 4096) g, used),
    )

abbrev pub PageTableEntry : Type 0
PageTableEntry = ℕ

module _ (bits : BitField) where
  unfoldable pub is_unused : PageTableEntry → Bool
  is_unused entry = entry == 0

  unfoldable pub output_address : PageTableEntry → Address
  unfolding new_canonical physical_space
  output_address entry =
      new_canonical (physical_space bits)
        (bit_and entry (bit_and (bit_not (page_size - 1)) (bit_not (0xffff <<< 48))))

  -- The entry's new value; the old one does not matter.
  unfoldable pub set_entry : Chunk → PteFlags → PageTableEntry
  unfolding start_address physical_space accessed
  set_entry frame flags = bit_or (start_address (physical_space bits) frame) (accessed flags true)

  -- The address of the table that an entry leads to.
  unfoldable pub as_page_table : PageTableEntry → Address
  as_page_table entry = bits.get_bits entry 12 52 <<< 12

  set_entry-eq :
      (c : Chunk) (f : PteFlags)
      → c < 2 ^ 36
      → f < 2 ^ 64
      → f / 2 ^ 12 % 2 ^ 40 ≡ 0
      → (set_entry c f / 2 ^ 12 % 2 ^ 40 ≡ c) × (set_entry c f < 2 ^ 64) × (set_entry c f ≢ 0)
  unfolding set_entry
  set_entry-eq c f hc hf none_there =
      let at : start_address (physical_space bits) c ≡ c * 4096 =
        start_address_below (physical_space bits) c (unfold physical_space in omega arith) in
      let g = present-SetsField f true hf in
      rw at (
        bit_or_frame c (accessed f true) hc (omega (arith, g.3)) (omega (arith, g.3, none_there))
          (omega (arith, g.3)))

  -- An entry that was set to a frame leads to the start of that frame, by both ways of reading it,
  -- and counts as used, when the flags have none of the bits 12 to 51.
  pub output_address-set_entry :
      (c : Chunk) (f : PteFlags)
      → c < 2 ^ 36
      → f < 2 ^ 64
      → f / 2 ^ 12 % 2 ^ 40 ≡ 0
      → (as_page_table (set_entry c f) ≡ c * 4096)
        × (output_address (set_entry c f) ≡ c * 4096)
        × (is_unused (set_entry c f) ≡ false)
  unfolding as_page_table output_address is_unused
  output_address-set_entry c f hc hf none_there =
      let e = set_entry-eq c f hc hf none_there in
      let x = set_entry c f in
      (
        rw (bits.get_bits_lem x 12 52 e.1 (omega arith) (omega arith)) (omega (arith, e.0)),
        rw
            (
              bit_and-at 12 x (2 ^ 36 - 1) 0 (omega arith),
              bit_and_ones 36 (x / 2 ^ 12),
              bit_and-zero (x % 2 ^ 12),
            )
            (omega (arith, e.0, physical_closed (x / 2 ^ 12 % 2 ^ 36 * 2 ^ 12 + 0))),
        ground (arith, e.2),
      )
