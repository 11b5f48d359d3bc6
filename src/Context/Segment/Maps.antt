-- ===== src/Context/Segment/Maps.antt =====
-- `map_segment` of uefi-bootloader/src/context.rs: a segment's memory, and the pages that lead to it.
use uefi_bootloader.Prelude.{
  ℕ, ◌+◌, ◌-◌, ◌*◌, ◌/◌, ◌^◌, ◌<◌, bit_and, ◌≡◌, refl, ap, ◌∙◌, ◌≢◌, inl, inr, true, ◌&&◌, none,
  some, List, arith, ltb, leb, ◌==◌, if◌then◌else◌, ltb→lt, leb→le, Bool-cases, length, range,
  length-range, ◌+w◌, ◌*w◌, bit_and_ones, ok,
}
use uefi_bootloader.Memory.Address.{Address}
use uefi_bootloader.Memory.Chunk.{Chunk}
use uefi_bootloader.Arch.Machine.{Machine, IsMachine, PageView, IsPageMap}
use uefi_bootloader.FrameAllocator.{kernel_memory}
use uefi_bootloader.FrameAllocator.Source.{IsQueue, address, BootServices, uefi}
use uefi_bootloader.PageAllocator.{ProgramHeader, mark_segment_as_used}
use uefi_bootloader.PageAllocator.Slots.{Marks, mark_segment_as_used-Marks}
use uefi_bootloader.Modules.{calculate_pages}
use uefi_bootloader.Modules.Buffer.{calculate_pages-eq}
use uefi_bootloader.Context.{zip, map_to_frames}
use uefi_bootloader.Context.Zip.{zipped_InReach, length-zip-range, get_elem?-range}
use uefi_bootloader.Context.Loops.{
  mapped_to, mapped_to-range, entry_after, Ran, Opens-zip, map_to_frames-Ran,
}
use uefi_bootloader.Context.Segment.{
  write_zeros, BootContext, allocate_slice_inner, allocate_slice, allocate_byte_slice,
  segment_flags, map_segment,
}
use uefi_bootloader.Context.Segment.Pages.{offset_of, pages_of, first_page, segment_pages-eq}
use uefi_bootloader.Context.Segment.Loadable.{allocate_type, IsLoadable, Mapping}

module _ (machine : Machine) (is_machine : IsMachine machine) (services : BootServices)
    (q : IsQueue (uefi machine.physical_space services)) (v : PageView machine)
    (law : IsPageMap machine (uefi machine.physical_space services) q v) where
  open q use {left}
  open v use {entry_of, leaf, InReach}

  module _ (segment : ProgramHeader) (c : BootContext machine services) (pointer : Address)
      (firmware : services.State)
      (h : IsLoadable machine is_machine services q v law segment c pointer firmware) where
    abbrev after_slice : BootContext machine services
    after_slice = record c {
      firmware = firmware;
      memory = write_zeros c.memory pointer (1 * (offset_of segment + segment.p_memsz));
    }

    num_pages : calculate_pages (1 *w (offset_of segment + segment.p_memsz)) ≡ pages_of segment
    num_pages =
        let small : offset_of segment + segment.p_memsz < 2 ^ 63 = omega (arith, h.below) in
        let same : 1 *w (offset_of segment + segment.p_memsz)
            ≡ offset_of segment + segment.p_memsz =
          omega (arith, h.below) in
        rw same (
          calculate_pages-eq (offset_of segment + segment.p_memsz) (omega (arith, h.not_empty))
            small)

    -- The slice, whichever way it is allocated.
    slice_at :
        allocate_slice_inner machine services 1
          (offset_of segment + segment.p_memsz)
          (allocate_type machine segment)
          kernel_memory
          c
        ≡ ok (after_slice, pointer)
    unfolding allocate_slice_inner
    slice_at = rw (num_pages, h.allocated) refl

    slice_eq :
        (if machine.is_x86_64 && segment.p_paddr == 0x10_0000
          then allocate_slice_inner machine services 1
              (offset_of segment + segment.p_memsz)
              (address 0x10_0000)
              kernel_memory
              c
          else allocate_byte_slice machine services
              (offset_of segment + segment.p_memsz)
              kernel_memory
              c)
        ≡ ok (after_slice, pointer)
    unfolding allocate_byte_slice allocate_slice
    slice_eq = elim (Bool-cases (machine.is_x86_64 && segment.p_paddr == 0x10_0000)) [
      | inl f ↦ rw f (rw f at slice_at)
      | inr f ↦ rw f (rw f at slice_at)
    ]

    abbrev flags : machine.PteFlags
    flags = segment_flags machine segment

    abbrev pairs : List (Chunk × Chunk)
    pairs =
        zip (range (first_page segment) (pages_of segment))
          (range (pointer / 4096) (pages_of segment))

    length-pairs : length pairs ≡ pages_of segment
    length-pairs =
        length-zip-range (first_page segment) (pages_of segment)
          (range (pointer / 4096) (pages_of segment))
          (omega (arith, length-range (pointer / 4096) (pages_of segment)))
        ∙ length-range (pointer / 4096) (pages_of segment)

    -- The frame of a page of the segment.
    frame_of_page :
        (p : Chunk)
        → mapped_to pairs p ≡ (
            if leb (first_page segment) p
            then (if ltb (p - first_page segment) (pages_of segment)
                then some (pointer / 4096 + (p - first_page segment))
                else none)
            else none)
    frame_of_page p =
        mapped_to-range (first_page segment) (pages_of segment)
          (range (pointer / 4096) (pages_of segment)) p
          (omega (arith, length-range (pointer / 4096) (pages_of segment)))
        ∙ ap (λ o. if leb (first_page segment) p then o else none)
            (get_elem?-range (pointer / 4096) (pages_of segment) (p - first_page segment))

    frame_of_byte :
        (k : ℕ)
        → k < segment.p_memsz
        → mapped_to pairs ((segment.p_vaddr + k) / 4096)
          ≡ some ((pointer + offset_of segment + k) / 4096)
    frame_of_byte k lt =
        let p = (segment.p_vaddr + k) / 4096 in
        let ge : leb (first_page segment) p ≡ true = ground arith in
        let inside : ltb (p - first_page segment) (pages_of segment) ≡ true = ground (arith, lt) in
        let frame : pointer / 4096 + (p - first_page segment)
            ≡ (pointer + offset_of segment + k) / 4096 =
          omega (arith, h.aligned) in
        frame_of_page p ∙ rw (ge, inside, frame) refl

    no_frame :
        (p : Chunk)
        → ((k : ℕ) → k < segment.p_memsz → (segment.p_vaddr + k) / 4096 ≢ p)
        → mapped_to pairs p ≡ none
    no_frame p apart = elim (Bool-cases (leb (first_page segment) p)) [
      | inl e ↦ elim (Bool-cases (ltb (p - first_page segment) (pages_of segment))) [
        | inl f ↦
            let ge = leb→le (first_page segment) p e in
            let lt = ltb→lt (p - first_page segment) (pages_of segment) f in
            absurd (
              apart (p * 4096 - segment.p_vaddr) (omega (arith, ge, lt, h.not_empty))
                (omega (arith, ge)))
        | inr f ↦ frame_of_page p ∙ rw (e, f) refl
      ]
      | inr e ↦ frame_of_page p ∙ rw e refl
    ]

    abbrev Run : Type 0
    Run =
        Ran machine (uefi machine.physical_space services) q v law c.mapper firmware
          (length pairs * 3) pairs flags
          (map_to_frames machine (uefi machine.physical_space services) pairs flags c.mapper
            firmware)

    run : Run
    run =
        map_to_frames-Ran machine (uefi machine.physical_space services) q v law pairs flags
          c.mapper firmware h.valid
          (zipped_InReach InReach (first_page segment) (pages_of segment)
            (range (pointer / 4096) (pages_of segment)) h.reach)
          (Opens-zip machine (uefi machine.physical_space services) q v law c.mapper
            (first_page segment) (pages_of segment) (range (pointer / 4096) (pages_of segment))
            h.opens)
          (omega (arith, length-pairs, h.enough))

    mapping :
        (m : Marks c.page_allocator segment.p_vaddr segment.p_memsz
          (mark_segment_as_used machine.virtual_space c.page_allocator segment))
        (g : Run)
        → Mapping machine is_machine services q v law segment c pointer
            (map_segment machine services segment c)
    unfolding map_segment
    mapping m g = record {
      context = record after_slice {
        firmware = g.after;
        page_allocator = m.after;
        mapper = g.mapper;
      };
      returns =
          let off : bit_and segment.p_vaddr 0xfff ≡ offset_of segment =
            bit_and_ones 12 segment.p_vaddr in
          let whole : offset_of segment +w segment.p_memsz ≡ offset_of segment + segment.p_memsz =
            omega (arith, h.below) in
          let fits : leb (offset_of segment) (offset_of segment + segment.p_memsz) ≡ true =
            ground arith in
          let len : offset_of segment + segment.p_memsz - offset_of segment ≡ segment.p_memsz =
            omega arith in
          let pages =
            segment_pages-eq machine is_machine segment pointer h.not_empty h.half h.aligned
              h.below in
          rw (off, whole, slice_eq, m.returns, pages, g.returns, fits, len) refl;
      memory = λ x.
          let one : 1 * (offset_of segment + segment.p_memsz)
              ≡ offset_of segment + segment.p_memsz =
            omega arith in
          rw one refl;
      size = m.size;
      marked = m.bytes;
      still_used = m.kept;
      other_slots = m.others;
      valid = g.valid;
      bytes = λ k lt.
          g.entries ((segment.p_vaddr + k) / 4096) (h.reach _ (omega arith) (omega (arith, lt)))
          ∙ ap
              (λ o.
                entry_after machine (uefi machine.physical_space services) q v law o flags
                  (entry_of c.mapper ((segment.p_vaddr + k) / 4096)))
              (frame_of_byte k lt);
      others = λ p r apart.
          g.entries p r
          ∙ ap
              (λ o.
                entry_after machine (uefi machine.physical_space services) q v law o flags
                  (entry_of c.mapper p))
              (no_frame p apart);
    }

    -- `map_segment`, on a segment that is loadable: it returns the segment's part of a zeroed
    -- slice, and the rest of memory is as before; the page of each byte of the segment is mapped to
    -- the frame of the same byte of the slice with the segment's flags; every other page in reach
    -- keeps its entry; the slots of the segment's bytes are marked, and no other slot changes.
    pub map_segment-Mapping :
        Mapping machine is_machine services q v law segment c pointer
          (map_segment machine services segment c)
    map_segment-Mapping =
        mapping
          (mark_segment_as_used-Marks machine.virtual_space c.page_allocator segment h.size
            h.not_empty h.half)
          run
