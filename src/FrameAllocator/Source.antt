-- ===== src/FrameAllocator/Source.antt =====
-- The trait `FrameAllocator` of uefi-bootloader/src/memory.rs, with the promise that its users rely
-- on, and the two types that implement it.
use uefi_bootloader.Prelude.{ℕ, Option, none, some, List}
use uefi_bootloader.Memory.Address.{AddressSpace, new_canonical}
use uefi_bootloader.Memory.Chunk.{Chunk, containing_address}
use uefi_bootloader.FrameAllocator.{
  MemoryTypes, LegacyFrameAllocator, allocate_frame, kernel_memory,
}
use uefi_bootloader.FrameAllocator.Queue.{remaining, Inv, Dequeues}
use uefi_bootloader.FrameAllocator.Allocate.{allocate_frame-Took}

-- A type that implements the trait.
pub record FrameAllocator : Type 1 where
  pub State : Type 0
  pub allocate_frame : State → State × Option Chunk

-- The promise: in a valid state the frames come from a queue, in order.
pub record IsQueue (a : FrameAllocator) : Type 1 where
  pub Valid : a.State → Type 0
  pub left : a.State → List Chunk
  pub keeps : (s : a.State) → Valid s → Valid (a.allocate_frame s).0
  pub dequeues :
      (s : a.State)
      → Valid s
      → Dequeues (left s) (a.allocate_frame s).1 (left (a.allocate_frame s).0)

-- `LegacyFrameAllocator`
abbrev pub legacy : AddressSpace → MemoryTypes → FrameAllocator
legacy space types = record {
  State = LegacyFrameAllocator;
  allocate_frame = allocate_frame space types;
}

unfoldable pub legacy-IsQueue :
    (space : AddressSpace) (types : MemoryTypes) → IsQueue (legacy space types)
legacy-IsQueue space types = record {
  Valid = Inv space types;
  left = remaining types;
  keeps = λ s h. (allocate_frame-Took space types s h).inv;
  dequeues = λ s h. (allocate_frame-Took space types s h).taken;
}

-- `AllocateType`: any pages, or those at an address.
pub data AllocateType : Type 0 where
  any_pages : AllocateType
  address : ℕ → AllocateType

-- The firmware's `allocate_pages`, for so many pages of a memory type, with the firmware's state.
pub record BootServices : Type 1 where
  pub State : Type 0
  pub allocate_pages : State → AllocateType → ℕ → ℕ → State × Option ℕ

-- `.ok().map(…)`
abbrev pub frame_of : AddressSpace → Option ℕ → Option Chunk
frame_of space none = none
frame_of space (some a) = some (containing_address (new_canonical space a))

-- `UefiFrameAllocator`
abbrev pub uefi : AddressSpace → BootServices → FrameAllocator
uefi space services = record {
  State = services.State;
  allocate_frame = λ s.
      let (s', got) = services.allocate_pages s any_pages kernel_memory 1 in
      (s', frame_of space got);
}
