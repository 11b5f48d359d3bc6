-- ===== src/Context/Segment.antt =====
-- `BootContext` of uefi-bootloader/src/context.rs, its allocation of slices and `map_segment`. The
-- context has the firmware's state in place of the system table, and the bytes of physical memory.
pub mod Pages
pub mod Flags
pub mod Loadable
pub mod Maps
use uefi_bootloader.Prelude.{
  ℕ, ◌+◌, ◌-◌, ◌*◌, bit_and, true, not, ◌&&◌, List, ltb, leb, ◌==◌, if◌then◌else◌, length, get_or,
  ◌+w◌, ◌*w◌, Outcome, ◌>>=◌, ◌>>◌, expect, guard, ok,
}
use uefi_bootloader.Memory.Address.{Address, new_canonical, add, sub}
use uefi_bootloader.Memory.Chunk.{Chunk, containing_address}
use uefi_bootloader.Memory.Range as Ranges
use uefi_bootloader.Memory.Range.{into_iter}
use uefi_bootloader.Arch.Machine.{Machine}
use uefi_bootloader.FrameAllocator.{kernel_memory}
use uefi_bootloader.FrameAllocator.Source.{AllocateType, any_pages, address, BootServices, uefi}
use uefi_bootloader.PageAllocator.{ProgramHeader, PageAllocator, mark_segment_as_used}
use uefi_bootloader.Modules.{calculate_pages}
use uefi_bootloader.Context.{zip, map_to_frames}

-- Bytes of memory, and those that follow each other written from an address on.
abbrev pub Memory : Type 0
Memory = Address → ℕ

abbrev pub write_bytes : Memory → Address → List ℕ → Memory
write_bytes memory p bytes x =
    if leb p x && ltb x (p + length bytes) then get_or bytes (x - p) 0 else memory x

abbrev pub write_zeros : Memory → Address → ℕ → Memory
write_zeros memory p n x = if leb p x && ltb x (p + n) then 0 else memory x

-- A mutable slice of bytes: its pointer and its length.
pub record Slice : Type 0 where
  pub pointer : Address
  pub len : ℕ

module _ (machine : Machine) where
  open machine use {
    PteFlags, no_flags, present, writable, no_execute, virtual_space, physical_space, Mapper,
  }

  -- The flags of a segment's pages.
  unfoldable pub segment_flags : ProgramHeader → PteFlags
  segment_flags segment =
      let flags = present no_flags true in
      let flags' = if bit_and segment.p_flags 0x1 == 0 then no_execute flags true else flags in
      if not (bit_and segment.p_flags 0x2 == 0) then writable flags' true else flags'

  -- The pages of a segment with the frames of the slice at `pointer`.
  unfoldable pub segment_pages : ProgramHeader → Address → List (Chunk × Chunk)
  unfolding containing_address new_canonical add sub into_iter
  segment_pages segment pointer =
      let in_page_offset = bit_and segment.p_vaddr 0xfff in
      let virtual_start = new_canonical virtual_space segment.p_vaddr in
      let virtual_end_inclusive =
        sub virtual_space (add virtual_space virtual_start segment.p_memsz) 1 in
      let physical_start = new_canonical physical_space (pointer +w in_page_offset) in
      let physical_end_inclusive =
        sub physical_space (add physical_space physical_start segment.p_memsz) 1 in
      zip
        (into_iter (
          Ranges.new (containing_address virtual_start) (containing_address virtual_end_inclusive)))
        (into_iter (
          Ranges.new (containing_address physical_start)
            (containing_address physical_end_inclusive)))

  module _ (services : BootServices) where
    pub record BootContext : Type 0 where
      pub firmware : services.State
      pub memory : Memory
      pub page_allocator : PageAllocator
      pub mapper : Mapper

    -- `len` elements of some size, zeroed: the pointer to them.
    unfoldable pub allocate_slice_inner :
        ℕ → ℕ → AllocateType → ℕ → BootContext → Outcome (BootContext × Address)
    unfolding calculate_pages
    allocate_slice_inner size_of len allocate_type memory_type c =
        let num_pages = calculate_pages (size_of *w len) in
        let (firmware, got) =
          services.allocate_pages c.firmware allocate_type memory_type num_pages in
        expect got >>= λ pointer. ok (
          record c { firmware = firmware; memory = write_zeros c.memory pointer (size_of * len) },
          pointer,
        )

    unfoldable pub allocate_slice : ℕ → ℕ → ℕ → BootContext → Outcome (BootContext × Address)
    unfolding allocate_slice_inner
    allocate_slice size_of len memory_type c =
        allocate_slice_inner size_of len any_pages memory_type c

    unfoldable pub allocate_byte_slice : ℕ → ℕ → BootContext → Outcome (BootContext × Address)
    unfolding allocate_slice
    allocate_byte_slice len ty c = allocate_slice 1 len ty c

    unfoldable pub map_segment : ProgramHeader → BootContext → Outcome (BootContext × Slice)
    unfolding allocate_slice_inner allocate_byte_slice mark_segment_as_used segment_flags
        map_to_frames
    map_segment segment c = do
      let in_page_offset = bit_and segment.p_vaddr 0xfff
      let size_from_page_start = in_page_offset +w segment.p_memsz
      let is_x86_64_init_section = machine.is_x86_64 && segment.p_paddr == 0x10_0000
      slice ←
          (if is_x86_64_init_section
            then allocate_slice_inner 1 size_from_page_start (address 0x10_0000) kernel_memory c
            else allocate_byte_slice size_from_page_start kernel_memory c)
      page_allocator ← mark_segment_as_used virtual_space slice.0.page_allocator segment
      r ←
          map_to_frames machine (uefi physical_space services) (segment_pages segment slice.1)
            (segment_flags segment) slice.0.mapper slice.0.firmware
      guard (leb in_page_offset size_from_page_start)
      ok (
        record slice.0 { firmware = r.1; page_allocator = page_allocator; mapper = r.0 },
        record { pointer = slice.1 + in_page_offset; len = size_from_page_start - in_page_offset },
      )
