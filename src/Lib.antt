-- ===== src/Lib.antt =====
-- The Theseus UEFI bootloader: what it computes about memory before it jumps to the kernel.
--
-- The program (uefi-bootloader/src) is started by the firmware. It loads the kernel and its modules,
-- takes the firmware's memory map, exits the boot services, builds page tables and a boot information
-- record for the kernel (uefi-bootloader-api/src/lib.rs), and jumps. Frames come from the memory map
-- by an allocator that later turns what it did into the kernel's map; virtual addresses come from an
-- allocator of slots of 512 GiB that knows the kernel's segments.
--
-- Parts and files:
--   Prelude         shared notation: tests on numbers, lists, 64-bit words, bit masks, and `Outcome`,
--                   a result or a panic.
--   Api             uefi-bootloader-api/src/lib.rs: the boot information and its parts. A slice for other
--                   languages is a pointer and a length, over a function that says which element
--                   stands at an address. `Utf8` stands for the text of core::str.
--   Memory.Address  implement_address! of uefi-bootloader/src/memory.rs (VirtualAddress,
--                   PhysicalAddress): new, new_canonical, page_offset as `offset`, + and - as `add`
--                   and `sub`. The architecture's functions are the interface `AddressSpace`.
--   Memory.Chunk    implement_page_frame! (Page, Frame).
--   Memory.Range    implement_page_frame_range! (PageRange, FrameRange); from_virt_addr and
--                   from_phys_addr are `from_addr`, size_in_pages and size_in_frames `size_in_chunks`.
--   Arch            canonical addresses of uefi-bootloader/src/arch/x86_64/memory.rs (X86) and of
--                   uefi-bootloader/src/arch/aarch64/memory.rs (Aarch64), which fill `AddressSpace`.
--                   `BitField` stands for the crate bit_field.
--   FrameAllocator  LegacyFrameAllocator of memory.rs. An iterator over the firmware's descriptors
--                   is the list of those left; `MemoryTypes` stands for the constants of the crate
--                   uefi. The loops are recursion on that list, so they end.
--   PageAllocator   PageAllocator of both architectures; X86 and Aarch64 hold what differs.
--   Arch.X86.Flags, Arch.Aarch64.Flags, Arch.Aarch64.Entry
--                   PteFlags of both architectures, and PageTableEntry and the indices of a page of
--                   aarch64. `Arch.Fields` holds what their bit masks share.
--   Arch.Machine    what the program uses of the architecture that arch/mod.rs selects, as the record
--                   `Machine`, and what it relies on: `IsMachine` for addresses and slots, `IsPageMap`
--                   for the mapper. Arch.Aarch64.Machine fills all three, Arch.X86.Machine all but
--                   `IsPageMap`, which on x86_64 is a matter of the crate x86_64. A page may only be
--                   mapped where its entry is open, `IsOpen`, which on aarch64 is everywhere.
--   Arch.Aarch64.Mapper
--                   Mapper and PageTable of aarch64: `map` is `map_page`. The tables in memory are a
--                   function of a table's address and an index, since memory is mapped to itself.
--                   Tree is the invariant: each table in use is reached in one way. The entry 510 of the
--                   root leads back to the root, so pages under it are left out (`InReach`).
--   Arch.X86.Mapper Mapper of x86_64, on the page tables of the crate x86_64. The record `Crate` stands for
--                   what it calls of the crate, `IsCrate` for what the crate documents.
--                   `map` is `map_page`; the register CR3 is an argument and a result of `current`.
--   FrameAllocator.Source
--                   the trait FrameAllocator, as the record `FrameAllocator` with the promise `IsQueue`,
--                   and its two implementations; `BootServices` stands for the firmware's pages.
--   Context         uefi-bootloader/src/context.rs: RuntimeContext and the loops that map pages.
--   Context.Mappings
--                   set_up_mappings of uefi-bootloader/src/mappings.rs: its stages are `map_stack`,
--                   `map_frame_buffer` and `map_jump`.
--   Context.Segment BootContext, the allocation of slices and map_segment, with the bytes of memory.
--   Context.Kernel  uefi-bootloader/src/kernel.rs. `RegularFile` stands for the file of the crate uefi,
--                   `Elf` for what the crate goblin reads in bytes. `Turns` is what the loop over the
--                   program headers meets: a header to skip, or a segment that can be loaded.
--   BootInfo        uefi-bootloader/src/boot_info.rs: the layout of the boot information, and its creation.
--                   Two mappers stand in one memory there: `share` of `Machine` hands it on. On aarch64
--                   Arch.Aarch64.Mapper.Beside says when they do not disturb each other (`IsBeside`). It
--                   takes the firmware's tables to be a tree without block entries, in frames that the
--                   allocator does not hand out; the firmware does not promise this.
--   Main            uefi-bootloader/src/main.rs: get_frame_buffer, and main from the end of the boot
--                   services on as `hand_over`; BootContext::new and exit_boot_services of context.rs.
--   Logger          uefi-bootloader/src/logger.rs: drawing characters into the frame buffer, the list
--                   of its bytes. `Font` stands for the crate noto_sans_mono_bitmap.
--   Rsdp            get_rsdp_address of uefi-bootloader/src/main.rs.
--   Modules         load_modules of uefi-bootloader/src/modules.rs, calculate_pages of util.rs and the
--                   allocation of slices of context.rs. `Firmware` stands for the crate uefi.
--
-- Numbers: usize is a natural number below 2 ^ 64; `+w`, `-w` and `*w` wrap as a release build does.
-- A panic (expect, assert!, an index out of range) is `panic`.
--
-- Loops are recursion on lists, of pages, frames or headers, so they end. The theorems on the loops ask
-- for three frames for the tables of each page, and one more where the page itself gets a new frame:
-- seven for a page of the boot information, which is mapped in two trees.
--
-- Not modelled: registers other than CR3 and TTBR0, and the jump itself; formatting; the logger's lock and
-- set-up; the panic handler; the opening of the file system; the architectures that are not supported.
-- The first half of main calls functions that are modelled one by one and is not composed.
pub mod Api
pub mod Arch
pub mod BootInfo
pub mod Context
pub mod FrameAllocator
pub mod Logger
pub mod Main
pub mod Memory
pub mod Modules
pub mod PageAllocator
pub mod Prelude
pub mod Rsdp
