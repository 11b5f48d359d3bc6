-- ===== src/BootInfo/Create.antt =====
-- `create_boot_info` of uefi-bootloader/src/boot_info.rs: the boot information, its memory in the kernel's
-- page tables and in those in use, and what is written there.
use uefi_bootloader.Prelude.{
  ℕ, true, Option, none, List, [], ◌∷◌, length, replicate, Outcome, ◌>>=◌, expect, ok,
}
use uefi_bootloader.Api.{MemoryRegion, ElfSection, FrameBuffer}
use uefi_bootloader.Api.Slices.{StaticSlice}
use uefi_bootloader.Api.MemoryRegions as MemoryRegions
use uefi_bootloader.Api.Modules as ModuleSlice
use uefi_bootloader.Api.ElfSections as ElfSections
use uefi_bootloader.Api.BootInformation.{BootInformation}
use uefi_bootloader.Memory.Address.{Address, add, sub}
use uefi_bootloader.Memory.Chunk.{Chunk, containing_address}
use uefi_bootloader.Memory.Range as Ranges
use uefi_bootloader.Memory.Range.{into_iter}
use uefi_bootloader.Arch.Machine.{Machine}
use uefi_bootloader.FrameAllocator.{MemoryTypes, len, construct_memory_map}
use uefi_bootloader.FrameAllocator.Source.{FrameAllocator, legacy}
use uefi_bootloader.Modules.{Module}
use uefi_bootloader.Context.{RuntimeContext}
use uefi_bootloader.BootInfo.{Layouts, Offsets, offsets}

module _ (machine : Machine) where
  open machine use {PteFlags, no_flags, present, writable, virtual_space, Mapper, Register, share}

  abbrev pub boot_info_flags : PteFlags
  boot_info_flags = writable (present no_flags true) true

  -- The loop over the pages: each is mapped to a new frame in both page tables.
  unfoldable pub map_in_both :
      (a : FrameAllocator)
      → List Chunk
      → Mapper
      → Mapper
      → a.State
      → Outcome (Mapper × Mapper × a.State)
  map_in_both a [] mapper in_use s = ok (mapper, in_use, s)
  map_in_both a (page ∷ pages) mapper in_use s =
      let (s', got) = a.allocate_frame s in
      expect got >>= λ frame. machine.map_page a mapper page frame boot_info_flags s' >>= λ r.
      machine.map_page a (share r.0 in_use) page frame boot_info_flags r.1 >>= λ u.
      map_in_both a pages (share u.0 r.0) u.0 u.1

  -- What `create_boot_info` returns, and what it leaves in memory: the boot information at its address,
  -- and the elements of its three slices.
  pub record Created : Type 0 where
    pub boot_info_address : Address
    pub boot_info : BootInformation
    pub memory_regions : List (Option MemoryRegion)
    pub modules : List Module
    pub elf_sections : List ElfSection
    pub mapper : Mapper
    pub register : Register

  module _ (types : MemoryTypes) (t : Layouts) where
    abbrev allocator : FrameAllocator
    allocator = legacy machine.physical_space types

    unfoldable pub boot_info_pages : Address → ℕ → List Chunk
    unfolding into_iter containing_address add sub
    boot_info_pages address size = into_iter (
        Ranges.new (containing_address address)
          (containing_address (sub virtual_space (add virtual_space address size) 1)))

    -- The slices and the boot information, once the memory is mapped.
    unfoldable pub write_boot_info :
        Offsets
        → Address
        → Option FrameBuffer
        → Option ℕ
        → List (Option MemoryRegion)
        → List Module
        → List ElfSection
        → BootInformation
    unfolding add MemoryRegions.from ModuleSlice.from ElfSections.from
    write_boot_info o address frame_buffer rsdp_address memory_regions modules elf_sections =
        let slice : ℕ → ℕ → StaticSlice =
          λ offset n. record { as_mut_ptr = add virtual_space address offset; len = n } in
        record {
          size = o.combined.size;
          frame_buffer = frame_buffer;
          rsdp_address = rsdp_address;
          memory_regions =
              MemoryRegions.from (slice o.memory_regions_offset (length memory_regions));
          modules = ModuleSlice.from (slice o.modules_offset (length modules));
          elf_sections = ElfSections.from (slice o.elf_sections_offset (length elf_sections));
        }

    unfoldable pub create_boot_info :
        Register
        → RuntimeContext machine allocator
        → Option FrameBuffer
        → Option ℕ
        → List Module
        → List ElfSection
        → Outcome Created
    unfolding offsets map_in_both write_boot_info boot_info_pages
    create_boot_info register c frame_buffer rsdp_address modules elf_sections = do
      let memory_regions_count = len c.frame_allocator
      o ← offsets t memory_regions_count (length modules) (length elf_sections)
      found ← machine.get_free_address c.page_allocator o.combined.size
      used ← machine.current allocator c.mapper register c.frame_allocator
      let pages = boot_info_pages found.1 o.combined.size
      mapped ← map_in_both allocator pages (share used.0 c.mapper) used.0 used.2
      memory_regions ←
          construct_memory_map machine.physical_space types mapped.2
            (replicate memory_regions_count none)
      ok (record {
        boot_info_address = found.1;
        boot_info =
            write_boot_info o found.1 frame_buffer rsdp_address memory_regions modules elf_sections;
        memory_regions = memory_regions;
        modules = modules;
        elf_sections = elf_sections;
        mapper = mapped.0;
        register = used.1;
      })
