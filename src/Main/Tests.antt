-- ===== src/Main/Tests.antt =====
-- Runs of the frame buffer's query, and of the stages of `main` one after the other.
use uefi_bootloader.Prelude.{
  ℕ, ◌+◌, ◌*◌, ◌/◌, ◌<◌, ◌≡◌, refl, ◌∙◌, false, some, List, [], ◌∷◌, arith, ok, panic,
}
use uefi_bootloader.Api.{PixelFormat, FrameBuffer}
use uefi_bootloader.Arch.BitRanges.{bit_ranges}
use uefi_bootloader.Arch.Machine.{IsPageMap}
use uefi_bootloader.Arch.Aarch64.Canonical.{physical_space}
use uefi_bootloader.FrameAllocator as FrameAllocators
use uefi_bootloader.FrameAllocator.{MemoryDescriptor, MemoryTypes}
use uefi_bootloader.FrameAllocator.Source.{legacy, legacy-IsQueue, uefi}
use uefi_bootloader.FrameAllocator.Queue.{pending}
use uefi_bootloader.FrameAllocator.Accounts.{IsFirmwareMap, made, Accounts, Allocated-Accounts}
use uefi_bootloader.PageAllocator as PageAllocators
use uefi_bootloader.PageAllocator.Slots.{is_used}
use uefi_bootloader.Context.Samples.{
  flat, flat-IsMachine, flat_view, flat-IsPageMap, few_pages, few_pages-IsQueue, segment,
  before_loading, segment-IsLoadable,
}
use uefi_bootloader.Context.Mappings.{set_up_mappings}
use uefi_bootloader.Context.Mappings.Ready.{IsReady, SetUp}
use uefi_bootloader.Context.Segment.{map_segment, segment_flags}
use uefi_bootloader.Context.Segment.Pages.{offset_of}
use uefi_bootloader.Context.Segment.Loadable.{Mapping}
use uefi_bootloader.Context.Segment.Maps.{map_segment-Mapping}
use uefi_bootloader.Main.{bgr, bitmask, Gop, get_frame_buffer, allocator, exit_boot_services}
use uefi_bootloader.Main.Survives.{set_up_mappings-map_segment}

abbrev screen : Gop
screen = record {
  pixel_format = bgr;
  width = 64;
  height = 48;
  stride = 64;
  size = 0x3000;
  pointer = 0x8000_0000;
}

abbrev screen_buffer : FrameBuffer
screen_buffer = record {
  physical = 0x8000_0000;
  virt = 0;
  info = record {
    size = 0x3000;
    width = 64;
    height = 48;
    pixel_format = PixelFormat.bgr;
    bytes_per_pixel = 4;
    stride = 64;
  };
}

has_screen : get_frame_buffer (some (some screen)) ≡ ok (some screen_buffer)
unfolding get_frame_buffer
has_screen = refl

-- No fall-back: a frame buffer of another format stops the bootloader.
other_format : get_frame_buffer (some (some (record screen { pixel_format = bitmask }))) ≡ panic
unfolding get_frame_buffer
other_format = refl

abbrev types : MemoryTypes
types = record {
  conventional = 7;
  loader_code = 1;
  loader_data = 2;
  boot_services_code = 3;
  boot_services_data = 4;
  conventional-lt = omega arith;
  loader_code-lt = omega arith;
  loader_data-lt = omega arith;
  boot_services_code-lt = omega arith;
  boot_services_data-lt = omega arith;
}

-- A hundred frames of conventional memory.
abbrev memory_map : List MemoryDescriptor
memory_map = record { ty = 7; phys_start = 0x10_0000; page_count = 100 } ∷ []

memory_map-IsFirmwareMap : IsFirmwareMap (physical_space bit_ranges) memory_map
unfolding physical_space
memory_map-IsFirmwareMap = record {
  fits = (record { aligned = refl; below = omega arith }, tt);
  apart = (tt, tt);
}

abbrev loaded :
    Mapping flat flat-IsMachine few_pages few_pages-IsQueue flat_view
      (flat-IsPageMap (uefi (physical_space bit_ranges) few_pages) few_pages-IsQueue)
      segment
      before_loading
      (500 * 4096)
      (map_segment flat few_pages segment before_loading)
loaded =
    map_segment-Mapping flat flat-IsMachine few_pages few_pages-IsQueue flat_view
      (flat-IsPageMap (uefi (physical_space bit_ranges) few_pages) few_pages-IsQueue) segment
      before_loading (500 * 4096) 503 segment-IsLoadable

abbrev map_law :
    IsPageMap flat
      (legacy (physical_space bit_ranges) types)
      (legacy-IsQueue (physical_space bit_ranges) types)
      flat_view
map_law =
    flat-IsPageMap (legacy (physical_space bit_ranges) types)
      (legacy-IsQueue (physical_space bit_ranges) types)

slot_free :
    (i : ℕ)
    → 0 < i
    → is_used PageAllocators.new i ≡ false
    → is_used loaded.context.page_allocator i ≡ false
slot_free i pos free = loaded.other_slots i (λ k lt e. omega (arith, lt, e, pos)) ∙ free

ready :
    IsReady flat flat-IsMachine
      (allocator flat few_pages types)
      (legacy-IsQueue (physical_space bit_ranges) types)
      flat_view
      map_law
      0x20_0000
      (exit_boot_services flat few_pages types (λ s. memory_map) loaded.context)
      screen_buffer
      1
      2
unfolding exit_boot_services PageAllocators.new legacy-IsQueue FrameAllocators.new pending
    FrameAllocators.descriptor_kind
ready = record {
  size = loaded.size;
  free_i = slot_free 1 (omega arith) refl;
  free_j = slot_free 2 (omega arith) refl;
  low_i = omega arith;
  low_j = omega arith;
  differ = omega arith;
  valid =
      Accounts.inv
        (Allocated-Accounts (physical_space bit_ranges) types memory_map-IsFirmwareMap made);
  is_buffer = record { not_empty = omega arith; small = omega arith; below = omega arith };
  enough = omega arith;
  jump_low = omega arith;
  jump_used = loaded.still_used 0 refl;
  open_slots = λ p reach free. tt;
  open_jump = tt;
}

set_up_mappings-map_segment_example :
    (s : SetUp flat flat-IsMachine
      (allocator flat few_pages types)
      (legacy-IsQueue (physical_space bit_ranges) types)
      flat_view
      map_law
      0x20_0000
      (exit_boot_services flat few_pages types (λ s. memory_map) loaded.context)
      screen_buffer
      (set_up_mappings flat
        (allocator flat few_pages types)
        0x20_0000
        (exit_boot_services flat few_pages types (λ s. memory_map) loaded.context)
        (some screen_buffer)))
    × (s.context.mapper ((0x40_0123 + 0x1000) / 4096)
        ≡ some ((500 * 4096 + offset_of segment + 0x1000) / 4096, segment_flags flat segment))
set_up_mappings-map_segment_example =
    set_up_mappings-map_segment flat flat-IsMachine few_pages types flat_view few_pages-IsQueue
      (flat-IsPageMap (uefi (physical_space bit_ranges) few_pages) few_pages-IsQueue)
      (legacy-IsQueue (physical_space bit_ranges) types) map_law segment before_loading (500 * 4096)
      loaded (λ s. memory_map) 0x20_0000 screen_buffer 1 2 ready 0x1000 (omega arith) tt
      (omega arith)
