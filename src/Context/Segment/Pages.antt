-- ===== src/Context/Segment/Pages.antt =====
-- The pages and the frames that `map_segment` of uefi-bootloader/src/context.rs goes through.
use uefi_bootloader.Prelude.{
  ℕ, ◌+◌, ◌-◌, ◌/◌, ◌%◌, ◌^◌, ◌<◌, bit_and, ◌≡◌, refl, sym, ap, ◌∙◌, arith, range, ◌+w◌,
  bit_and_ones,
}
use uefi_bootloader.Memory.Address.{Address, new_canonical, add, sub}
use uefi_bootloader.Memory.Address.Laws.{add-below, sub-below, add-canonical, sub-canonical}
use uefi_bootloader.Memory.Chunk.{Chunk, containing_address}
use uefi_bootloader.Memory.Range.Steps.{into_iter-range}
use uefi_bootloader.Memory.Range.{new}
use uefi_bootloader.Arch.Machine.{Machine, IsMachine}
use uefi_bootloader.PageAllocator.{ProgramHeader}
use uefi_bootloader.PageAllocator.Slots.{InHalf}
use uefi_bootloader.Context.{zip}
use uefi_bootloader.Context.Segment.{segment_pages}

-- The offset of a segment in its first page, and the number of its pages.
abbrev pub offset_of : ProgramHeader → ℕ
offset_of segment = segment.p_vaddr % 4096

abbrev pub pages_of : ProgramHeader → ℕ
pages_of segment = (offset_of segment + segment.p_memsz + 4095) / 4096

abbrev pub first_page : ProgramHeader → Chunk
first_page segment = segment.p_vaddr / 4096

module _ (machine : Machine) (is_machine : IsMachine machine) (segment : ProgramHeader)
    (pointer : Address) (pos : 0 < segment.p_memsz)
    (half : InHalf machine.virtual_space segment.p_vaddr segment.p_memsz)
    (aligned : pointer % 4096 ≡ 0)
    (below : pointer + offset_of segment + segment.p_memsz < 2 ^ 48) where
  open machine use {virtual_space, physical_space}

  virtual_end :
      sub virtual_space (add virtual_space segment.p_vaddr segment.p_memsz) 1
      ≡ segment.p_vaddr + segment.p_memsz - 1
  virtual_end =
      let e =
        add-canonical virtual_space segment.p_vaddr segment.p_memsz half.below
          (half.canonical segment.p_memsz (omega arith)) in
      let last : segment.p_vaddr + segment.p_memsz - 1 ≡ segment.p_vaddr + (segment.p_memsz - 1) =
        omega (arith, pos) in
      rw e (
        sub-canonical virtual_space (segment.p_vaddr + segment.p_memsz) 1 (
          ap virtual_space.canonicalize last
          ∙ half.canonical (segment.p_memsz - 1) (omega arith)
          ∙ sym last))

  physical_end :
      sub physical_space (add physical_space (pointer + offset_of segment) segment.p_memsz) 1
      ≡ pointer + offset_of segment + segment.p_memsz - 1
  physical_end =
      let h : pointer + offset_of segment + segment.p_memsz < physical_space.limit =
        omega (arith, below, is_machine.physical_limit) in
      rw (add-below physical_space (pointer + offset_of segment) segment.p_memsz h)
        (sub-below physical_space (pointer + offset_of segment + segment.p_memsz) 1 h)

  -- Pages and frames are as many, and both start where the segment does.
  pub segment_pages-eq :
      segment_pages machine segment pointer
      ≡ zip
          (range (first_page segment) (pages_of segment))
          (range (pointer / 4096) (pages_of segment))
  unfolding segment_pages containing_address new_canonical
  segment_pages-eq =
      let off : bit_and segment.p_vaddr 0xfff ≡ offset_of segment =
        bit_and_ones 12 segment.p_vaddr in
      let start : virtual_space.canonicalize segment.p_vaddr ≡ segment.p_vaddr =
        ap virtual_space.canonicalize (omega arith)
        ∙ half.canonical 0 (omega arith)
        ∙ omega arith in
      let inside : pointer +w offset_of segment ≡ pointer + offset_of segment =
        omega (arith, below) in
      let start' : physical_space.canonicalize (pointer + offset_of segment)
          ≡ pointer + offset_of segment =
        physical_space.canonicalize_below (pointer + offset_of segment)
          (omega (arith, below, is_machine.physical_limit)) in
      let many : (segment.p_vaddr + segment.p_memsz - 1) / 4096 + 1 - first_page segment
          ≡ pages_of segment =
        omega (arith, pos) in
      let first : (pointer + offset_of segment) / 4096 ≡ pointer / 4096 = omega (arith, aligned) in
      let many' : (pointer + offset_of segment + segment.p_memsz - 1) / 4096 + 1 - pointer / 4096
          ≡ pages_of segment =
        omega (arith, pos, aligned) in
      let pages =
        into_iter-range (new (first_page segment) ((segment.p_vaddr + segment.p_memsz - 1) / 4096))
          (omega (arith, half.below)) in
      let frames =
        into_iter-range
          (new (pointer / 4096) ((pointer + offset_of segment + segment.p_memsz - 1) / 4096))
          (omega (arith, below)) in
      rw (off, start, inside, start', virtual_end, physical_end, first, pages, frames, many, many')
        refl
