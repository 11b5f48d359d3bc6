-- ===== src/Context/Segment/Loadable.antt =====
-- What `map_segment` of uefi-bootloader/src/context.rs needs, and what it promises.
use uefi_bootloader.Prelude.{
  ℕ, ◌+◌, ◌*◌, ◌/◌, ◌%◌, ◌^◌, ◌≤◌, ◌<◌, ◌≡◌, ◌≢◌, true, ◌&&◌, some, ltb, leb, ◌==◌, if◌then◌else◌,
  length, Outcome, ok,
}
use uefi_bootloader.Memory.Address.{Address}
use uefi_bootloader.Memory.Chunk.{Chunk}
use uefi_bootloader.Arch.Machine.{Machine, IsMachine, PageView, IsPageMap}
use uefi_bootloader.FrameAllocator.{kernel_memory}
use uefi_bootloader.FrameAllocator.Source.{
  IsQueue, AllocateType, any_pages, address, BootServices, uefi,
}
use uefi_bootloader.PageAllocator.{ProgramHeader}
use uefi_bootloader.PageAllocator.Slots.{is_used, slot_of, InHalf}
use uefi_bootloader.Context.Segment.{Slice, BootContext, segment_flags}
use uefi_bootloader.Context.Segment.Pages.{offset_of, pages_of, first_page}

-- How the slice of a segment is allocated: the first segment of an x86_64 kernel has its place.
abbrev pub allocate_type : Machine → ProgramHeader → AllocateType
allocate_type machine segment =
    if machine.is_x86_64 && segment.p_paddr == 0x10_0000 then address 0x10_0000 else any_pages

module _ (machine : Machine) (is_machine : IsMachine machine) (services : BootServices)
    (q : IsQueue (uefi machine.physical_space services)) (v : PageView machine)
    (law : IsPageMap machine (uefi machine.physical_space services) q v) where
  open q use {left}
  open v use {entry_of, leaf, InReach, IsOpen}

  -- A segment that fits its half of the address space and whose pages are in reach and open, and what the
  -- firmware has for it: whole pages below `2 ^ 48`, and frames for the page tables.
  pub record IsLoadable (segment : ProgramHeader) (c : BootContext machine services)
      (pointer : Address) (firmware : services.State) : Type 0 where
    pub not_empty : 0 < segment.p_memsz
    pub half : InHalf machine.virtual_space segment.p_vaddr segment.p_memsz
    pub reach :
        (i : ℕ) → first_page segment ≤ i → i < first_page segment + pages_of segment → InReach i
    pub opens :
        (i : ℕ)
        → first_page segment ≤ i
        → i < first_page segment + pages_of segment
        → IsOpen (entry_of c.mapper i)
    pub size : length c.page_allocator.entries ≡ 512
    pub allocated :
        services.allocate_pages c.firmware
          (allocate_type machine segment)
          kernel_memory
          (pages_of segment)
        ≡ (firmware, some pointer)
    pub aligned : pointer % 4096 ≡ 0
    pub below : pointer + offset_of segment + segment.p_memsz < 2 ^ 48
    pub valid : v.Valid (uefi machine.physical_space services) q c.mapper firmware
    pub enough : pages_of segment * 3 ≤ length (left firmware)

  -- The slice is zeroed, each byte of the segment is mapped to its byte of the slice with the
  -- segment's flags, and other pages in reach keep their entries.
  pub record Mapping (segment : ProgramHeader) (c : BootContext machine services)
      (pointer : Address) (r : Outcome (BootContext machine services × Slice)) : Type 0 where
    pub context : BootContext machine services
    pub returns :
        r ≡ ok (context, record { pointer = pointer + offset_of segment; len = segment.p_memsz })
    pub memory :
        (x : Address)
        → context.memory x ≡ (
            if leb pointer x && ltb x (pointer + (offset_of segment + segment.p_memsz))
            then 0
            else c.memory x)
    pub size : length context.page_allocator.entries ≡ 512
    pub marked :
        (k : ℕ)
        → k < segment.p_memsz
        → is_used context.page_allocator (slot_of (segment.p_vaddr + k)) ≡ true
    pub still_used :
        (i : ℕ) → is_used c.page_allocator i ≡ true → is_used context.page_allocator i ≡ true
    pub other_slots :
        (i : ℕ)
        → ((k : ℕ) → k < segment.p_memsz → slot_of (segment.p_vaddr + k) ≢ i)
        → is_used context.page_allocator i ≡ is_used c.page_allocator i
    pub valid : v.Valid (uefi machine.physical_space services) q context.mapper context.firmware
    pub bytes :
        (k : ℕ)
        → k < segment.p_memsz
        → entry_of context.mapper ((segment.p_vaddr + k) / 4096)
          ≡ leaf ((pointer + offset_of segment + k) / 4096) (segment_flags machine segment)
    pub others :
        (p : Chunk)
        → InReach p
        → ((k : ℕ) → k < segment.p_memsz → (segment.p_vaddr + k) / 4096 ≢ p)
        → entry_of context.mapper p ≡ entry_of c.mapper p
