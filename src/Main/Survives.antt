-- ===== src/Main/Survives.antt =====
-- A segment of the kernel in the stages of `main` of uefi-bootloader/src/main.rs after `map_segment`.
use uefi_bootloader.Prelude.{
  ℕ, ◌+◌, ◌/◌, ◌^◌, ◌<◌, ◌≡◌, ◌∙◌, ◌≢◌, false, some, List, arith, Outcome,
}
use uefi_bootloader.Api.{FrameBuffer}
use uefi_bootloader.Memory.Address.{Address}
use uefi_bootloader.Arch.Machine.{Machine, IsMachine, PageView, IsPageMap}
use uefi_bootloader.FrameAllocator.{MemoryDescriptor, MemoryTypes}
use uefi_bootloader.FrameAllocator.Source.{IsQueue, BootServices, uefi, legacy}
use uefi_bootloader.PageAllocator.{ProgramHeader}
use uefi_bootloader.PageAllocator.Slots.{is_used, slot_of}
use uefi_bootloader.Context.Mappings.{set_up_mappings}
use uefi_bootloader.Context.Mappings.Ready.{IsReady, SetUp}
use uefi_bootloader.Context.Mappings.SetUp.{set_up_mappings-SetUp}
use uefi_bootloader.Context.Segment.{Slice, BootContext, segment_flags}
use uefi_bootloader.Context.Segment.Pages.{offset_of}
use uefi_bootloader.Context.Segment.Loadable.{Mapping}
use uefi_bootloader.Main.{allocator, exit_boot_services}

module _ (machine : Machine) (is_machine : IsMachine machine) (services : BootServices)
    (types : MemoryTypes) (v : PageView machine)
    (q : IsQueue (uefi machine.physical_space services))
    (law : IsPageMap machine (uefi machine.physical_space services) q v)
    (q' : IsQueue (legacy machine.physical_space types))
    (law' : IsPageMap machine (legacy machine.physical_space types) q' v) where
  open v use {entry_of, leaf, InReach}

  -- After `map_segment`, the end of the boot services and `set_up_mappings` with a frame buffer,
  -- each byte of the segment is still mapped to its byte of the slice with the segment's flags, if
  -- the context is ready and the page is in reach and not that of the context switch.
  pub set_up_mappings-map_segment :
      (segment : ProgramHeader) (c : BootContext machine services) (pointer : Address)
      {r : Outcome (BootContext machine services × Slice)}
      (m : Mapping machine is_machine services q v law segment c pointer r)
      (exit : services.State → List MemoryDescriptor) (jump_to_kernel : ℕ) (fb : FrameBuffer)
      (i j : ℕ)
      → IsReady machine is_machine
          (allocator machine services types)
          q'
          v
          law'
          jump_to_kernel
          (exit_boot_services machine services types exit m.context)
          fb
          i
          j
      → (k : ℕ) → k < segment.p_memsz
      → InReach ((segment.p_vaddr + k) / 4096)
      → (segment.p_vaddr + k) / 4096 ≢ jump_to_kernel / 4096
      → (s : SetUp machine is_machine
          (allocator machine services types)
          q'
          v
          law'
          jump_to_kernel
          (exit_boot_services machine services types exit m.context)
          fb
          (set_up_mappings machine
            (allocator machine services types)
            jump_to_kernel
            (exit_boot_services machine services types exit m.context)
            (some fb)))
        × (entry_of s.context.mapper ((segment.p_vaddr + k) / 4096)
            ≡ leaf ((pointer + offset_of segment + k) / 4096) (segment_flags machine segment))
  unfolding exit_boot_services
  set_up_mappings-map_segment segment c pointer m exit jump_to_kernel fb i j ready k lt reach ne =
      let a = allocator machine services types in
      let c' = exit_boot_services machine services types exit m.context in
      let s = set_up_mappings-SetUp machine is_machine a q' v law' jump_to_kernel c' fb i j ready in
      let p = (segment.p_vaddr + k) / 4096 in
      let used = m.marked k lt in
      let apart : (slot : ℕ)
          → slot < 256
          → is_used m.context.page_allocator slot ≡ false
          → p / 2 ^ 27 ≢ slot =
        λ slot low free e.
          let same : slot_of (segment.p_vaddr + k) ≡ slot = omega (arith, e, low) in
          cc (used, free, same) in
      (
        s,
        s.others p reach (apart s.stack_slot s.stack_low s.stack_was_free)
              (apart s.buffer_slot s.buffer_low s.buffer_was_free) ne
            ∙ m.bytes k lt,
      )
