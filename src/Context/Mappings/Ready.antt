-- ===== src/Context/Mappings/Ready.antt =====
-- What `set_up_mappings` of uefi-bootloader/src/mappings.rs needs, and what it promises.
use uefi_bootloader.Prelude.{
  ℕ, ◌+◌, ◌*◌, ◌/◌, ◌^◌, ◌≤◌, ◌<◌, ◌≡◌, ◌≢◌, true, false, Option, some, List, length, get_elem?,
  Outcome, ok,
}
use mathlib.Core.List.{Sublistᴰ}
use uefi_bootloader.Api.{FrameBuffer}
use uefi_bootloader.Memory.Address.{Address}
use uefi_bootloader.Arch.Machine.{Machine, IsMachine, PageView, IsPageMap}
use uefi_bootloader.FrameAllocator.Source.{FrameAllocator, IsQueue}
use uefi_bootloader.PageAllocator.Slots.{is_used}
use uefi_bootloader.Context.{RuntimeContext}
use uefi_bootloader.Context.Mappings.{stack_flags}
use uefi_bootloader.Memory.Chunk.{Chunk}
use uefi_bootloader.Context.Mappings.Buffer.{IsBuffer, pages_before_last}

module _ (machine : Machine) (is_machine : IsMachine machine) (a : FrameAllocator) (q : IsQueue a)
    (v : PageView machine) (law : IsPageMap machine a q v) where
  open q use {left}
  open v use {Entry, entry_of, leaf, InReach, IsOpen}
  open machine use {virtual_space, physical_space, Mapper}

  -- What a context must offer: two free slots for the stack and the frame buffer, frames for 17 pages,
  -- the buffer's tables and those of every page, and the code of the context switch in a used slot. The pages of free slots and that
  -- of the context switch are open.
  pub record IsReady (jump_to_kernel : ℕ) (c : RuntimeContext machine a) (fb : FrameBuffer)
      (i j : ℕ) : Type 0 where
    pub size : length c.page_allocator.entries ≡ 512
    pub free_i : is_used c.page_allocator i ≡ false
    pub free_j : is_used c.page_allocator j ≡ false
    pub low_i : i < 256
    pub low_j : j < 256
    pub differ : i ≢ j
    pub valid : v.Valid a q c.mapper c.frame_allocator
    pub is_buffer : IsBuffer fb
    pub enough : 71 + pages_before_last fb * 3 ≤ length (left c.frame_allocator)
    pub jump_low : jump_to_kernel < 2 ^ 47
    pub jump_used : is_used c.page_allocator (jump_to_kernel / 2 ^ 39) ≡ true
    pub open_slots :
        (p : Chunk)
        → InReach p
        → is_used c.page_allocator (p / 2 ^ 27) ≡ false
        → IsOpen (entry_of c.mapper p)
    pub open_jump : IsOpen (entry_of c.mapper (jump_to_kernel / 4096))

  -- What the pages are mapped to afterwards.
  pub record SetUp (jump_to_kernel : ℕ) (c : RuntimeContext machine a) (fb : FrameBuffer)
      (r : Outcome (RuntimeContext machine a × Option FrameBuffer × Address)) : Type 0 where
    pub context : RuntimeContext machine a
    pub stack_slot : ℕ
    pub buffer_slot : ℕ
    pub frames : List Chunk
    pub returns :
        r
        ≡ ok (
          context,
          some (record fb { virt = buffer_slot * 2 ^ 39 }),
          stack_slot * 2 ^ 39 + 18 * 4096,
        )
    pub stack_was_free : is_used c.page_allocator stack_slot ≡ false
    pub buffer_was_free : is_used c.page_allocator buffer_slot ≡ false
    pub stack_low : stack_slot < 256
    pub buffer_low : buffer_slot < 256
    pub differ : stack_slot ≢ buffer_slot
    pub from_queue : Sublistᴰ frames (left c.frame_allocator)
    pub valid : v.Valid a q context.mapper context.frame_allocator
    pub guard_page :
        entry_of context.mapper (stack_slot * 2 ^ 27) ≡ entry_of c.mapper (stack_slot * 2 ^ 27)
    pub stack :
        (k : ℕ)
        → k < 17
        → (f : Chunk) × (get_elem? frames k ≡ some f)
          × (entry_of context.mapper (stack_slot * 2 ^ 27 + 1 + k) ≡ leaf f (stack_flags machine))
    pub buffer :
        (k : ℕ)
        → k < pages_before_last fb
        → entry_of context.mapper (buffer_slot * 2 ^ 27 + k)
          ≡ leaf (fb.physical / 4096 + k) (stack_flags machine)
    pub buffer_end :
        entry_of context.mapper (buffer_slot * 2 ^ 27 + pages_before_last fb)
        ≡ entry_of c.mapper (buffer_slot * 2 ^ 27 + pages_before_last fb)
    pub jump :
        entry_of context.mapper (jump_to_kernel / 4096)
        ≡ leaf (jump_to_kernel / 4096) (machine.present machine.no_flags true)
    pub others :
        (p : Chunk)
        → InReach p
        → p / 2 ^ 27 ≢ stack_slot
        → p / 2 ^ 27 ≢ buffer_slot
        → p ≢ jump_to_kernel / 4096
        → entry_of context.mapper p ≡ entry_of c.mapper p
