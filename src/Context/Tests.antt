-- ===== src/Context/Tests.antt =====
-- Runs of the mapper, of the contexts' loops and of the kernel's loading.
use uefi_bootloader.Prelude.{
  ◌*◌, ◌/◌, ◌^◌, ◌<◌, ◌≡◌, refl, ap, ◌≢◌, none, some, List, [], ◌∷◌, arith, length, range,
  bit_and_ones,
}
use uefi_bootloader.Api.{rgb, FrameBuffer}
use uefi_bootloader.Memory.Chunk.{Chunk}
use uefi_bootloader.Arch.BitRanges.{bit_ranges}
use uefi_bootloader.Arch.Machine.{Machine, PageView, IsPageMap}
use uefi_bootloader.Arch.Aarch64.Entry.{p0_index, as_page_table}
use uefi_bootloader.Arch.Aarch64.Mapper as Mappers
use uefi_bootloader.Arch.Aarch64.Mapper.{Mapper, set_up_arch_specific_mappings, map_page}
use uefi_bootloader.Arch.Aarch64.Mapper.Tree.{entry_of}
use uefi_bootloader.Arch.Aarch64.Mapper.Supply.{Fresh}
use uefi_bootloader.Arch.Aarch64.Mapper.Maps.{IsMapper, Maps, map_page-Maps}
use uefi_bootloader.Arch.Aarch64.Mapper.Recursive.{
  News, new-News, set_up_arch_specific_mappings-IsMapper,
}
use uefi_bootloader.Arch.Aarch64.Samples.{frame_list, in_order, Fresh-range}
use uefi_bootloader.Arch.Aarch64.Machine.{aarch64, aarch64-IsMachine, page_view, aarch64-IsPageMap}
use uefi_bootloader.PageAllocator as PageAllocators
use uefi_bootloader.Context.{RuntimeContext, map_to_new_frames}
use uefi_bootloader.Context.NewFrames.{RanNew, map_to_new_frames-RanNew}
use uefi_bootloader.Context.Mappings.{stack_flags, set_up_mappings}
use uefi_bootloader.Context.Mappings.Ready.{IsReady, SetUp}
use uefi_bootloader.Context.Mappings.SetUp.{set_up_mappings-SetUp}

no_tables : Mappers.Tables
no_tables a i = 7

-- A hundred frames from the frame 256 on.
unfoldable frames : List Chunk
frames = range 256 100

length-frames : length frames ≡ 100
unfolding frames
length-frames = refl

frames-Fresh : Fresh (λ x. none) frames
unfolding frames
frames-Fresh = Fresh-range 256 100 (omega arith)

new-News_example :
    News bit_ranges frame_list in_order frames (Mappers.new bit_ranges frame_list no_tables frames)
new-News_example =
    new-News bit_ranges frame_list in_order no_tables frames tt frames-Fresh
      (omega (arith, length-frames))

abbrev made :
    News bit_ranges frame_list in_order frames (Mappers.new bit_ranges frame_list no_tables frames)
made =
    new-News bit_ranges frame_list in_order no_tables frames tt frames-Fresh
      (omega (arith, length-frames))

length-left : length made.after ≡ 99
length-left = omega (arith, ap length made.taken, length-frames)

p0_index_low : (c : Chunk) → c < 2 ^ 27 → p0_index c ≢ 510
unfolding p0_index
p0_index_low c h e = omega (arith, h, e, bit_and_ones 9 (c / 2 ^ 27))

map_page-Maps_example :
    Maps bit_ranges frame_list in_order made.mapper 5 9 0x401 made.after
      (map_page bit_ranges frame_list made.mapper 5 9 0x401 made.after)
map_page-Maps_example =
    map_page-Maps bit_ranges frame_list in_order made.mapper 5 9 0x401 made.after made.valid
      (omega arith, p0_index_low 5 (omega arith)) (omega (arith, length-left))

set_up_arch_specific_mappings-IsMapper_example :
    (as_page_table bit_ranges
        ((set_up_arch_specific_mappings bit_ranges made.mapper).tables (made.root * 4096) 510)
      ≡ made.root * 4096)
    × (entry_of bit_ranges (set_up_arch_specific_mappings bit_ranges made.mapper) 5
        ≡ entry_of bit_ranges made.mapper 5)
    × IsMapper bit_ranges frame_list in_order
        (set_up_arch_specific_mappings bit_ranges made.mapper)
        made.after
set_up_arch_specific_mappings-IsMapper_example =
    set_up_arch_specific_mappings-IsMapper bit_ranges frame_list in_order made.mapper made.root
      made.after 5 made.valid made.at made.small (omega arith, p0_index_low 5 (omega arith))

abbrev board : Machine
board = aarch64 bit_ranges

abbrev view : PageView board
view = page_view bit_ranges

board-IsPageMap : IsPageMap board frame_list in_order view
board-IsPageMap = aarch64-IsPageMap bit_ranges frame_list in_order

map_to_new_frames-RanNew_example :
    RanNew board frame_list in_order view board-IsPageMap made.mapper made.after
      (stack_flags board)
      (3 ∷ 4 ∷ [])
      8
      (map_to_new_frames board frame_list (3 ∷ 4 ∷ []) (stack_flags board) made.mapper made.after)
map_to_new_frames-RanNew_example =
    map_to_new_frames-RanNew board frame_list in_order view board-IsPageMap (3 ∷ 4 ∷ [])
      (stack_flags board) made.mapper made.after made.valid
      (
        (omega arith, p0_index_low 3 (omega arith)),
        ((omega arith, p0_index_low 4 (omega arith)), tt),
      )
      (tt, ((λ e. omega (arith, e)), tt), (tt, tt, tt)) (omega (arith, length-left))

abbrev screen : FrameBuffer
screen = record {
  physical = 0x8000_0000;
  virt = 0;
  info = record {
    size = 0x3000;
    width = 64;
    height = 48;
    pixel_format = rgb;
    bytes_per_pixel = 4;
    stride = 64;
  };
}

abbrev before_mappings : RuntimeContext board frame_list
before_mappings = record {
  page_allocator = PageAllocators.new;
  frame_allocator = made.after;
  mapper = made.mapper;
}

before_mappings-IsReady :
    IsReady board
      (aarch64-IsMachine bit_ranges)
      frame_list
      in_order
      view
      board-IsPageMap
      0x20_0000
      before_mappings
      screen
      1
      2
unfolding PageAllocators.new
before_mappings-IsReady = record {
  size = refl;
  free_i = refl;
  free_j = refl;
  low_i = omega arith;
  low_j = omega arith;
  differ = omega arith;
  valid = made.valid;
  is_buffer = record { not_empty = omega arith; small = omega arith; below = omega arith };
  enough = omega (arith, length-left);
  jump_low = omega arith;
  jump_used = refl;
  open_slots = λ p reach free. tt;
  open_jump = tt;
}

set_up_mappings-SetUp_example :
    SetUp board
      (aarch64-IsMachine bit_ranges)
      frame_list
      in_order
      view
      board-IsPageMap
      0x20_0000
      before_mappings
      screen
      (set_up_mappings board frame_list 0x20_0000 before_mappings (some screen))
set_up_mappings-SetUp_example =
    set_up_mappings-SetUp board (aarch64-IsMachine bit_ranges) frame_list in_order view
      board-IsPageMap 0x20_0000 before_mappings screen 1 2 before_mappings-IsReady
