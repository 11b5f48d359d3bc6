-- ===== src/Arch/X86/Mapper.antt =====
-- `Mapper` of uefi-bootloader/src/arch/x86_64/memory.rs, on the page tables of the crate `x86_64`.
-- Physical memory is identity-mapped, so that a table's address is its frame's.
pub mod Laws
use uefi_bootloader.Prelude.{
  ℕ, bit_or, ◌&&◌, Option, none, some, ◌==◌, if◌then◌else◌, Outcome, ◌>>=◌, ◌>>◌, expect, ok,
}
use uefi_bootloader.Memory.Address.{Address, new_canonical}
use uefi_bootloader.Memory.Chunk.{Chunk, start_address, containing_address}
use uefi_bootloader.FrameAllocator.Source.{FrameAllocator}
use uefi_bootloader.Arch.{BitField}
use uefi_bootloader.Arch.X86.Canonical.{virtual_space, physical_space}
use uefi_bootloader.Arch.X86.Flags.{PageTableFlags, PteFlags}

-- The trait `FrameAllocator` of the crate: frames by their start addresses.
pub record FrameSource : Type 1 where
  pub State : Type 0
  pub allocate_frame : State → Outcome (State × Option Address)

-- What the program takes of the crate: the checked constructors of addresses, pages and frames, by
-- their start addresses; the index of an address in the level 4 table; the flags that the crate knows;
-- a table's entries; and the mapping of a page in the tables below a level 4 table.
pub record Crate : Type 1 where
  pub virt_addr : ℕ → Outcome ℕ
  pub phys_addr : ℕ → Outcome ℕ
  pub page_from_start_address : ℕ → Option Address
  pub frame_from_start_address : ℕ → Option Address
  pub p4_index : ℕ → ℕ
  pub from_bits_truncate : ℕ → ℕ
  pub Entry : Type 0
  pub unused : Entry
  pub set_frame : Address → ℕ → Outcome Entry
  pub map_to :
      (a : FrameSource)
      → (Address → ℕ → Entry)
      → Address
      → Address
      → Address
      → ℕ
      → a.State
      → Outcome (Option ((Address → ℕ → Entry) × a.State))

module _ (crate' : Crate) where
  open crate' use {Entry, virt_addr, phys_addr}

  -- The tables in physical memory: a table's address, and the index of an entry.
  abbrev pub Tables : Type 0
  Tables = Address → ℕ → Entry

  abbrev pub write : Tables → Address → ℕ → Entry → Tables
  write tables table index e t i = if t == table && i == index then e else tables t i

  -- `pointer.write(PageTable::new())`
  abbrev pub new_table : Tables → Address → Tables
  new_table tables table t i = if t == table then crate'.unused else tables t i

  -- `OffsetPageTable`, with the memory that it refers to.
  pub record Mapper : Type 0 where
    pub tables : Tables
    pub level_4_table : Address

  module _ (bits : BitField) where
    -- `From<x86_64::VirtAddr>` and `From<x86_64::PhysAddr>`
    unfoldable pub from_virt_addr : ℕ → Address
    unfolding new_canonical
    from_virt_addr value = new_canonical (virtual_space bits) value

    unfoldable pub from_phys_addr : ℕ → Address
    unfolding new_canonical
    from_phys_addr value = new_canonical (physical_space bits) value

    -- `From<Page>` and `From<Frame>`
    unfoldable pub from_page : Chunk → Outcome Address
    unfolding start_address virtual_space
    from_page page = virt_addr (start_address (virtual_space bits) page) >>= λ a.
        expect (crate'.page_from_start_address a)

    unfoldable pub from_frame : Chunk → Outcome Address
    unfolding start_address physical_space
    from_frame frame = phys_addr (start_address (physical_space bits) frame) >>= λ a.
        expect (crate'.frame_from_start_address a)

    -- `From<PteFlags>`
    unfoldable pub from_flags : PteFlags → ℕ
    from_flags flags = crate'.from_bits_truncate flags

    unfoldable pub frame : Mapper → Chunk
    unfolding containing_address new_canonical physical_space
    frame m = containing_address (new_canonical (physical_space bits) m.level_4_table)

    unfoldable pub set_up_arch_specific_mappings : PageTableFlags → Mapper → Outcome Mapper
    set_up_arch_specific_mappings flags m = do
      address ← phys_addr m.level_4_table
      p4_frame ← expect (crate'.frame_from_start_address address)
      p4 ← virt_addr 0o177777_776_000_000_000_0000
      entry ← crate'.set_frame p4_frame (bit_or flags.present flags.writable)
      ok (record m { tables = write m.tables m.level_4_table (crate'.p4_index p4) entry })

    module _ (a : FrameAllocator) where
      -- `.map(Frame::into)`
      abbrev pub map_into : a.State × Option Chunk → Outcome (a.State × Option Address)
      map_into (s, none) = ok (s, none)
      map_into (s, some f) = from_frame f >>= λ address. ok (s, some address)

      -- `FrameAllocatorWrapper`
      abbrev pub wrapper : FrameSource
      wrapper = record { State = a.State; allocate_frame = λ s. map_into (a.allocate_frame s) }

      unfoldable pub new : Tables → a.State → Outcome (Mapper × a.State)
      unfolding start_address physical_space
      new tables s =
          let (s', got) = a.allocate_frame s in
          expect got >>= λ frame.
          let pointer = start_address (physical_space bits) frame in
          ok (record { tables = new_table tables pointer; level_4_table = pointer }, s')

      -- With the frame that the register CR3 holds, before and after.
      unfoldable pub current : Tables → Address → a.State → Outcome (Mapper × Address × a.State)
      unfolding start_address physical_space
      current tables cr3 s =
          let (s', got) = a.allocate_frame s in
          expect got >>= λ new_frame.
          let pointer = start_address (physical_space bits) new_frame in
          let cleared = new_table tables pointer in
          let copied = write cleared pointer 0 (cleared cr3 0) in
          from_frame new_frame >>= λ cr3'.
          ok (record { tables = copied; level_4_table = pointer }, cr3', s')

      unfoldable pub map_page :
          Mapper → Chunk → Chunk → PteFlags → a.State → Outcome (Mapper × a.State)
      unfolding from_flags
      map_page m page frame flags s = do
        page' ← from_page page
        frame' ← from_frame frame
        mapped ← crate'.map_to wrapper m.tables m.level_4_table page' frame' (from_flags flags) s
        r ← expect mapped
        ok (record m { tables = r.0 }, r.1)
