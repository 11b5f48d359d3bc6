-- ===== src/BootInfo/InBoth/Tests.antt =====
-- A run of the loop of `create_boot_info` over its pages.
use uefi_bootloader.Prelude.{
  ℕ, ◌*◌, ◌/◌, ◌^◌, ◌<◌, ◌≡◌, refl, inl, inr, false, none, some, List, [], ◌∷◌, arith, ◌==◌, ==→≡,
  Bool-cases, length, range, bit_and_ones,
}
use uefi_bootloader.Memory.Address.{Address}
use uefi_bootloader.Memory.Chunk.{Chunk}
use uefi_bootloader.Arch.BitRanges.{bit_ranges}
use uefi_bootloader.Arch.Aarch64.Entry.{p0_index, is_unused}
use uefi_bootloader.Arch.Aarch64.Samples.{frame_list, in_order, All-above, Fresh-range}
use uefi_bootloader.Arch.Aarch64.Machine.{aarch64}
use uefi_bootloader.Arch.Aarch64.Mapper.{Tables, Mapper, new}
use uefi_bootloader.Arch.Aarch64.Mapper.NewBeside.{NewBeside, new-NewBeside}
use uefi_bootloader.Arch.Aarch64.Mapper.Beside.{IsBeside, IsBeside-swap, Leaves, map_page-Leaves}
use uefi_bootloader.Arch.Aarch64.Mapper.Maps.{InReach, IsMapper}
use uefi_bootloader.Arch.Aarch64.Mapper.Supply.{Fresh, Fresh-put}
use uefi_bootloader.Arch.Aarch64.Mapper.Tree.{Places, put, IsTree}
use uefi_bootloader.FrameAllocator.Draw.{length-Drops}
use uefi_bootloader.BootInfo.Create.{map_in_both}
use uefi_bootloader.BootInfo.InBoth.{InBoth, map_in_both-InBoth}

-- Two empty trees in a memory of zeroes, with their roots in the frames 256 and 257.
abbrev zeroes : Tables
zeroes a i = 0

abbrev roots : Chunk → Places
roots f = put (λ x. none) (f * 4096) []

abbrev empty : Chunk → Mapper
empty f = record { tables = zeroes; level_zero_page_table = f * 4096 }

unfoldable frames : List Chunk
frames = range 258 98

length-frames : length frames ≡ 98
unfolding frames
length-frames = refl

roots-IsTree : (f : Chunk) → IsTree bit_ranges (roots f) zeroes (f * 4096)
unfolding is_unused
roots-IsTree f = record {
  root_at = ground arith;
  child = λ x π i h short bound within used. absurd (cc used);
}

frames-Fresh : (f : Chunk) → f < 258 → Fresh (roots f) frames
unfolding frames
frames-Fresh f h =
    Fresh-put (λ x. none) f [] (range 258 98) (All-above f 258 98 h)
      (Fresh-range 258 98 (omega arith))

abbrev empty-IsMapper :
    (f : Chunk) → f < 258 → IsMapper bit_ranges frame_list in_order (empty f) frames
empty-IsMapper f h = record {
  places = roots f;
  tree = roots-IsTree f;
  supply = record { valid = tt; fresh = frames-Fresh f h };
}

roots_apart : (x : Address) (π : List ℕ) → roots 257 x ≡ some π → roots 256 x ≡ none
roots_apart x π h = elim (Bool-cases (x == 257 * 4096)) [
  | inl e ↦
      let other : (x == 256 * 4096) ≡ false = ground (arith, ==→≡ x (257 * 4096) e) in rw other refl
  | inr e ↦ absurd (cc (rw e at h))
]

two_trees : IsBeside bit_ranges frame_list in_order (empty 256) (empty 257) frames
two_trees = record {
  one = empty-IsMapper 256 (omega arith);
  two = empty-IsMapper 257 (omega arith);
  same = refl;
  apart = roots_apart;
}

low_InReach : (c : Chunk) → c < 2 ^ 27 → InReach c
unfolding p0_index
low_InReach c h = (omega (arith, h), λ e. omega (arith, h, e, bit_and_ones 9 (c / 2 ^ 27)))

-- The second mapper has mapped the page 4, by three tables of its own.
abbrev in_use : Leaves bit_ranges frame_list in_order (empty 257) (empty 256) 4 9 0x401 frames
in_use =
    map_page-Leaves bit_ranges frame_list in_order (empty 257) (empty 256) 4 9 0x401 frames
      (IsBeside-swap bit_ranges frame_list in_order (empty 256) (empty 257) frames two_trees)
      (low_InReach 4 (omega arith)) (omega (arith, length-frames))

abbrev kernel : Mapper
kernel = record (empty 256) { tables = in_use.maps.mapper.tables }

map_in_both-InBoth_example :
    InBoth bit_ranges frame_list in_order (5 ∷ 6 ∷ []) kernel in_use.maps.mapper in_use.maps.after (
      map_in_both
        (aarch64 bit_ranges)
        frame_list
        (5 ∷ 6 ∷ [])
        kernel
        in_use.maps.mapper
        in_use.maps.after)
map_in_both-InBoth_example =
    map_in_both-InBoth bit_ranges frame_list in_order (5 ∷ 6 ∷ []) kernel in_use.maps.mapper
      in_use.maps.after
      (IsBeside-swap bit_ranges frame_list in_order in_use.maps.mapper kernel in_use.maps.after
        in_use.beside)
      (low_InReach 5 (omega arith), (low_InReach 6 (omega arith), tt))
      (omega (arith, length-frames, length-Drops in_use.maps.drops))

new-NewBeside_example :
    NewBeside bit_ranges frame_list in_order in_use.maps.mapper in_use.maps.after
      (new bit_ranges frame_list in_use.maps.mapper.tables in_use.maps.after)
new-NewBeside_example =
    new-NewBeside bit_ranges frame_list in_order in_use.maps.mapper in_use.maps.after
      in_use.beside.one (omega (arith, length-frames, length-Drops in_use.maps.drops))
