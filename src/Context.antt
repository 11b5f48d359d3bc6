-- ===== src/Context.antt =====
-- The two contexts of uefi-bootloader/src/context.rs, before and after the boot services are left, and
-- the loops that map pages. Both stand on a `Machine`, the architecture.
pub mod Zip
pub mod Loops
pub mod NewFrames
pub mod Mappings
pub mod Segment
pub mod Kernel
pub mod Samples
mod Tests
use uefi_bootloader.Prelude.{List, [], ◌∷◌, Outcome, ◌>>=◌, expect, ok}
use uefi_bootloader.Memory.Chunk.{Chunk}
use uefi_bootloader.Arch.Machine.{Machine}
use uefi_bootloader.FrameAllocator as FrameAllocators
use uefi_bootloader.FrameAllocator.{MemoryDescriptor, LegacyFrameAllocator, MemoryTypes}
use uefi_bootloader.FrameAllocator.Source.{FrameAllocator, legacy, BootServices}
use uefi_bootloader.PageAllocator.{PageAllocator}

-- `zip` of two iterators
abbrev pub zip {ℓ κ} : {A : Type ℓ} {B : Type κ} → List A → List B → List (A × B)
zip [] bs = []
zip (a ∷ as') [] = []
zip (a ∷ as') (b ∷ bs) = (a, b) ∷ zip as' bs

module _ (machine : Machine) where
  open machine use {Mapper, PteFlags, map_page}

  module _ (a : FrameAllocator) where
    -- `RuntimeContext`, with an allocator of the trait's kind.
    pub record RuntimeContext : Type 0 where
      pub page_allocator : PageAllocator
      pub frame_allocator : a.State
      pub mapper : Mapper

    unfoldable pub page_table : RuntimeContext → Chunk
    page_table c = machine.frame c.mapper

    -- A loop over pages that maps each to a new frame.
    unfoldable pub map_to_new_frames :
        List Chunk → PteFlags → Mapper → a.State → Outcome (Mapper × a.State)
    map_to_new_frames [] flags m s = ok (m, s)
    map_to_new_frames (page ∷ pages) flags m s =
        let (s', got) = a.allocate_frame s in
        expect got >>= λ frame.
        map_page a m page frame flags s' >>= λ r. map_to_new_frames pages flags r.0 r.1

    -- A loop over pages and frames that maps each page to its frame.
    unfoldable pub map_to_frames :
        List (Chunk × Chunk) → PteFlags → Mapper → a.State → Outcome (Mapper × a.State)
    map_to_frames [] flags m s = ok (m, s)
    map_to_frames ((page, frame) ∷ pairs) flags m s =
        map_page a m page frame flags s >>= λ r. map_to_frames pairs flags r.0 r.1
