-- ===== src/Arch/Aarch64/Mapper.antt =====
-- `Mapper` and `PageTable` of uefi-bootloader/src/arch/aarch64/memory.rs. Physical memory is mapped to
-- itself, so a table is known by its address. `Tables` is what the tables in memory hold, by the
-- table's address and the index of the entry.
pub mod Tree
pub mod Create
pub mod Leaf
pub mod Supply
pub mod Step
pub mod Path
pub mod Maps
pub mod Recursive
pub mod Beside
pub mod NewBeside
use uefi_bootloader.Prelude.{
  ℕ, true, ◌&&◌, Option, ltb, ◌==◌, if◌then◌else◌, Outcome, ◌>>=◌, ◌>>◌, expect, guard, ok,
}
use uefi_bootloader.Memory.Address.{Address, new_canonical}
use uefi_bootloader.Memory.Chunk.{Chunk, start_address, containing_address}
use uefi_bootloader.Arch.{BitField}
use uefi_bootloader.Arch.Aarch64.Canonical.{physical_space}
use uefi_bootloader.Arch.Aarch64.Flags as Flags
use uefi_bootloader.Arch.Aarch64.Flags.{
  PteFlags, present, page_descriptor, writable, accessed, no_execute,
}
use uefi_bootloader.Arch.Aarch64.Entry.{
  p0_index, p1_index, p2_index, p3_index, PageTableEntry, is_unused, set_entry, as_page_table,
}
use uefi_bootloader.FrameAllocator.Source.{FrameAllocator}

abbrev pub Tables : Type 0
Tables = Address → ℕ → PageTableEntry

-- A write to an entry of the table at `a`.
abbrev pub write : Tables → Address → ℕ → PageTableEntry → Tables
write tables a i entry b j = if (b == a) && (j == i) then entry else tables b j

-- `ptr::write_bytes(a, 0, 1)`
abbrev pub zero_table : Tables → Address → Tables
zero_table tables a b j = if b == a then 0 else tables b j

-- The mapper, with the memory that its tables stand in.
pub record Mapper : Type 0 where
  pub tables : Tables
  pub level_zero_page_table : Address

-- The flags of the entries that lead to a table.
unfoldable pub page_table_flags : PteFlags
unfolding Flags.new present accessed page_descriptor writable no_execute
page_table_flags =
    no_execute (writable (page_descriptor (accessed (present Flags.new true) true) true) true) true

module _ (bits : BitField) where
  -- `current`, with the base address that the translation register holds.
  unfoldable pub current : Address → Tables → Mapper
  unfolding new_canonical physical_space
  current baddr tables = record {
    tables = tables;
    level_zero_page_table = new_canonical (physical_space bits) baddr;
  }

  unfoldable pub frame : Mapper → Chunk
  unfolding new_canonical containing_address physical_space
  frame m = containing_address (new_canonical (physical_space bits) m.level_zero_page_table)

  unfoldable pub set_up_arch_specific_mappings : Mapper → Mapper
  unfolding frame set_entry Flags.new present accessed page_descriptor writable no_execute
  set_up_arch_specific_mappings m =
      let flags =
        no_execute (page_descriptor (writable (accessed (present Flags.new true) true) true) true)
          true in
      record m {
        tables = write m.tables m.level_zero_page_table 510 (set_entry bits (frame m) flags);
      }

  module _ (a : FrameAllocator) where
    -- An entry of a table for the next level, made if the entry is unused.
    unfoldable pub new_entry :
        Tables → Address → ℕ → PteFlags → a.State × Option Chunk → Outcome (Tables × a.State)
    unfolding set_entry start_address physical_space
    new_entry tables table index flags (s, got) = expect got >>= λ f. ok (
      write (zero_table tables (start_address (physical_space bits) f)) table index
          (set_entry bits f flags),
      s,
    )

    -- The address of the table that the entry leads to.
    unfoldable pub create_next_table :
        Tables → Address → ℕ → PteFlags → a.State → Outcome (Tables × Address × a.State)
    unfolding is_unused new_entry as_page_table
    create_next_table tables table index flags s = do
      guard (ltb index 512)
      made ←
          (if is_unused bits (tables table index)
            then new_entry tables table index flags (a.allocate_frame s)
            else ok (tables, s))
      ok (made.0, as_page_table bits (made.0 table index), made.1)

    unfoldable pub new : Tables → a.State → Outcome (Mapper × a.State)
    unfolding start_address physical_space
    new tables s =
        let (s', got) = a.allocate_frame s in
        expect got >>= λ f.
        let address = start_address (physical_space bits) f in
        ok (record { tables = zero_table tables address; level_zero_page_table = address }, s')

    unfoldable pub map_page :
        Mapper → Chunk → Chunk → PteFlags → a.State → Outcome (Mapper × a.State)
    unfolding create_next_table set_entry page_table_flags accessed page_descriptor p0_index
        p1_index p2_index p3_index
    map_page m page frame flags s = do
      one ← create_next_table m.tables m.level_zero_page_table (p0_index page) page_table_flags s
      two ← create_next_table one.0 one.1 (p1_index page) page_table_flags one.2
      three ← create_next_table two.0 two.1 (p2_index page) page_table_flags two.2
      guard (ltb (p3_index page) 512)
      let leaf = set_entry bits frame (page_descriptor (accessed flags true) true)
      ok (record m { tables = write three.0 three.1 (p3_index page) leaf }, three.2)
