-- ===== src/Context/Mappings.antt =====
-- uefi-bootloader/src/mappings.rs: the stack, the frame buffer and the code of the context switch in
-- the kernel's page tables. The frame allocator is any of the trait's.
pub mod Stack
pub mod Buffer
pub mod Frames
pub mod Ready
pub mod SetUp
use uefi_bootloader.Prelude.{ℕ, ◌-◌, ◌*◌, true, Option, none, some, range, Outcome, ◌>>=◌, ◌>>◌, ok}
use uefi_bootloader.Api.{FrameBuffer}
use uefi_bootloader.Memory.Address.{Address, new_canonical, add, sub}
use uefi_bootloader.Memory.Chunk as Chunks
use uefi_bootloader.Memory.Chunk.{Chunk, containing_address, start_address}
use uefi_bootloader.Memory.Range.{new, into_iter}
use uefi_bootloader.Arch.Machine.{Machine}
use uefi_bootloader.FrameAllocator.Source.{FrameAllocator}
use uefi_bootloader.Context.{RuntimeContext, zip, map_to_new_frames, map_to_frames}

-- `STACK_SIZE`
abbrev pub stack_size : ℕ
stack_size = 18 * 4096

module _ (machine : Machine) where
  open machine use {
    PteFlags, no_flags, present, writable, no_execute, virtual_space, physical_space,
  }

  -- The flags of the stack and of the frame buffer.
  abbrev pub stack_flags : PteFlags
  stack_flags = no_execute (writable (present no_flags true) true) true

  module _ (a : FrameAllocator) where
    -- The stack, with its last page.
    unfoldable pub map_stack : RuntimeContext machine a → Outcome (RuntimeContext machine a × Chunk)
    unfolding containing_address Chunks.add add sub new_canonical into_iter map_to_new_frames
    map_stack c = do
      found ← machine.get_free_address c.page_allocator stack_size
      let stack_start = containing_address found.1
      let stack_end =
          containing_address (sub virtual_space (add virtual_space found.1 stack_size) 1)
      let pages = into_iter (new (Chunks.add stack_start 1) stack_end)
      r ← map_to_new_frames machine a pages stack_flags c.mapper c.frame_allocator
      ok (record { page_allocator = found.0; frame_allocator = r.1; mapper = r.0 }, stack_end)

    unfoldable pub map_frame_buffer :
        RuntimeContext machine a → FrameBuffer → Outcome (RuntimeContext machine a × FrameBuffer)
    unfolding containing_address start_address add sub new_canonical into_iter map_to_frames
    map_frame_buffer c fb = do
      found ← machine.get_free_address c.page_allocator fb.info.size
      let virtual_start = containing_address found.1
      let virtual_end = containing_address (
          sub virtual_space
            (add virtual_space (start_address virtual_space virtual_start) fb.info.size) 1)
      let physical_start = containing_address (new_canonical physical_space fb.physical)
      let physical_end = containing_address (
          sub physical_space
            (add physical_space (start_address physical_space physical_start) fb.info.size) 1)
      let pages = into_iter (new virtual_start virtual_end)
      let frames = range physical_start (physical_end - physical_start)
      r ← map_to_frames machine a (zip pages frames) stack_flags c.mapper c.frame_allocator
      ok (
        record { page_allocator = found.0; frame_allocator = r.1; mapper = r.0 },
        record fb { virt = found.1 },
      )

    unfoldable pub map_optional_frame_buffer :
        RuntimeContext machine a
        → Option FrameBuffer
        → Outcome (RuntimeContext machine a × Option FrameBuffer)
    unfolding map_frame_buffer
    map_optional_frame_buffer c none = ok (c, none)
    map_optional_frame_buffer c (some fb) = map_frame_buffer c fb >>= λ r. ok (r.0, some r.1)

    -- The page of `jump_to_kernel`, a function's address, mapped to the frame of the same number.
    unfoldable pub map_jump : ℕ → RuntimeContext machine a → Outcome (RuntimeContext machine a)
    unfolding containing_address new_canonical
    map_jump jump_to_kernel c = do
      r ←
          machine.map_page a c.mapper
            (containing_address (new_canonical virtual_space jump_to_kernel))
            (containing_address (new_canonical physical_space jump_to_kernel))
            (present no_flags true) c.frame_allocator
      ok (record c { frame_allocator = r.1; mapper = r.0 })

    unfoldable pub set_up_mappings :
        ℕ
        → RuntimeContext machine a
        → Option FrameBuffer
        → Outcome (RuntimeContext machine a × Option FrameBuffer × Address)
    unfolding map_stack map_optional_frame_buffer map_jump Chunks.add start_address
    set_up_mappings jump_to_kernel c frame_buffer = do
      stack ← map_stack c
      buffer ← map_optional_frame_buffer stack.0 frame_buffer
      jump ← map_jump jump_to_kernel buffer.0
      mapper ← machine.set_up_arch_specific_mappings jump.mapper
      ok (
        record jump { mapper = mapper },
        buffer.1,
        start_address virtual_space (Chunks.add stack.1 1),
      )
