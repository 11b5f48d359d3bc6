-- ===== src/Context/Mappings/Buffer.antt =====
-- The frame buffer's pages: `map_frame_buffer`, on a valid context.
use uefi_bootloader.Prelude.{
  ℕ, ◌+◌, ◌-◌, ◌*◌, ◌/◌, ◌^◌, ◌≤◌, ◌<◌, ◌≡◌, refl, ap, ◌∙◌, ◌≢◌, false, none, some, arith, ltb, leb,
  if◌then◌else◌, length, range, length-range, Outcome, ok,
}
use uefi_bootloader.Context.Zip.{zipped_InReach, length-zip-range, get_elem?-range}
use mathlib.Core.Path.{ap₂}
use uefi_bootloader.Api.{FrameBuffer}
use uefi_bootloader.Memory.Address.{AddressSpace, new_canonical, add, sub}
use uefi_bootloader.Memory.Chunk.Laws.{start_address_below}
use uefi_bootloader.Memory.Chunk.{Chunk, containing_address, start_address}
use uefi_bootloader.Memory.Range.Steps.{into_iter-range}
use uefi_bootloader.Memory.Range.{new, into_iter}
use uefi_bootloader.Arch.Machine.{Machine, IsMachine, PageView, IsPageMap}
use uefi_bootloader.FrameAllocator.Source.{FrameAllocator, IsQueue}
use uefi_bootloader.FrameAllocator.Draw.{Drops, Drops-weaken}
use uefi_bootloader.PageAllocator.Slots.{is_used}
use uefi_bootloader.Context.{RuntimeContext, zip}
use uefi_bootloader.Context.Loops.{mapped_to-range, entry_after, map_to_frames-Ran, Opens-zip}
use uefi_bootloader.Context.Mappings.{stack_flags, map_frame_buffer}
use uefi_bootloader.Context.Mappings.Stack.{last_page}

-- The number of the last page of a buffer, from its first page.
abbrev pub pages_before_last : FrameBuffer → ℕ
pages_before_last fb = (fb.info.size - 1) / 4096

-- The buffer has at most 512 GiB, at an address that the physical address space has.
pub record IsBuffer (fb : FrameBuffer) : Type 0 where
  pub not_empty : 0 < fb.info.size
  pub small : fb.info.size < 2 ^ 39
  pub below : fb.physical + fb.info.size < 2 ^ 48

-- The chunk with the last of `n` bytes from the start of the chunk `c`.
last_of :
    (space : AddressSpace) (c n : ℕ)
    → 0 < n
    → c * 4096 + n < space.limit
    → containing_address (sub space (add space (start_address space c) n) 1) ≡ c + (n - 1) / 4096
last_of space c n pos h =
    rw (start_address_below space c (omega (arith, h)))
      (last_page space (c * 4096) n pos h ∙ omega (arith, pos))

module _ (machine : Machine) (is_machine : IsMachine machine) (a : FrameAllocator) (q : IsQueue a)
    (v : PageView machine) (law : IsPageMap machine a q v) where
  open q use {left}
  open v use {entry_of, leaf, InReach, IsOpen}
  open machine use {virtual_space, physical_space}

  -- The slot of the buffer, and the pages that are mapped to its frames: all but its last one.
  pub record Buffered (c : RuntimeContext machine a) (fb : FrameBuffer)
      (r : Outcome (RuntimeContext machine a × FrameBuffer)) : Type 0 where
    pub context : RuntimeContext machine a
    pub slot : ℕ
    pub returns : r ≡ ok (context, record fb { virt = slot * 2 ^ 39 })
    pub low : slot < 256
    pub was_free : is_used c.page_allocator slot ≡ false
    pub others : (i : ℕ) → i ≢ slot → is_used context.page_allocator i ≡ is_used c.page_allocator i
    pub valid : v.Valid a q context.mapper context.frame_allocator
    pub drops :
        Drops (pages_before_last fb * 3) (left c.frame_allocator) (left context.frame_allocator)
    pub entries :
        (p : Chunk)
        → InReach p
        → entry_of context.mapper p
          ≡ entry_after machine a q v law
              (if leb (slot * 2 ^ 27) p
                then (if ltb (p - slot * 2 ^ 27) (pages_before_last fb)
                    then some (fb.physical / 4096 + (p - slot * 2 ^ 27))
                    else none)
                else none)
              (stack_flags machine)
              (entry_of c.mapper p)

  module _ (fb : FrameBuffer) (is_buffer : IsBuffer fb) (slot : ℕ) (low : slot < 256) where
    abbrev count : ℕ
    count = pages_before_last fb

    abbrev physical_start : Chunk
    physical_start = containing_address (new_canonical physical_space fb.physical)

    abbrev virtual_end : Chunk
    virtual_end = containing_address (
        sub virtual_space
          (add virtual_space (start_address virtual_space (containing_address (slot * 2 ^ 39)))
            fb.info.size)
          1)

    abbrev physical_end : Chunk
    physical_end = containing_address (
        sub physical_space
          (add physical_space (start_address physical_space physical_start) fb.info.size) 1)

    buffer_pages :
        into_iter (new (containing_address (slot * 2 ^ 39)) virtual_end)
        ≡ range (slot * 2 ^ 27) (count + 1)
    unfolding containing_address
    buffer_pages =
        let first : slot * 2 ^ 39 / 4096 ≡ slot * 2 ^ 27 = omega arith in
        let end =
          last_of virtual_space (slot * 2 ^ 39 / 4096) fb.info.size is_buffer.not_empty
            (omega (arith, is_buffer.small, low, is_machine.virtual_limit)) in
        let many : virtual_end + 1 - slot * 2 ^ 39 / 4096 ≡ count + 1 = omega (arith, end) in
        into_iter-range (new (slot * 2 ^ 39 / 4096) virtual_end)
          (omega (arith, end, low, is_buffer.small))
        ∙ ap₂ range first many

    buffer_frames :
        range physical_start (physical_end - physical_start) ≡ range (fb.physical / 4096) count
    unfolding new_canonical containing_address
    buffer_frames =
        let kept : physical_space.canonicalize fb.physical ≡ fb.physical =
          physical_space.canonicalize_below fb.physical
            (omega (arith, is_buffer.below, is_machine.physical_limit)) in
        let first : physical_start ≡ fb.physical / 4096 = ap (λ (x : ℕ). x / 4096) kept in
        let end =
          last_of physical_space physical_start fb.info.size is_buffer.not_empty
            (omega (arith, first, is_buffer.below, is_machine.physical_limit)) in
        let many : physical_end - physical_start ≡ count = omega (arith, end) in
        ap₂ range first many

  pub map_frame_buffer-Buffered :
      (c : RuntimeContext machine a) (fb : FrameBuffer) (i : ℕ)
      → length c.page_allocator.entries ≡ 512
      → i < 256
      → is_used c.page_allocator i ≡ false
      → v.Valid a q c.mapper c.frame_allocator
      → ((p : Chunk)
          → InReach p
          → is_used c.page_allocator (p / 2 ^ 27) ≡ false
          → IsOpen (entry_of c.mapper p))
      → IsBuffer fb
      → pages_before_last fb * 3 ≤ length (left c.frame_allocator)
      → Buffered c fb (map_frame_buffer machine a c fb)
  unfolding map_frame_buffer
  map_frame_buffer-Buffered c fb i size low free h opens is_buffer n =
      let found =
        is_machine.finds c.page_allocator fb.info.size i size is_buffer.not_empty
          (omega (arith, is_buffer.small)) low free in
      let pages = range (found.slot * 2 ^ 27) (pages_before_last fb + 1) in
      let frames = range (fb.physical / 4096) (pages_before_last fb) in
      let pairs = zip pages frames in
      let fits : length frames ≤ pages_before_last fb + 1 =
        omega (arith, length-range (fb.physical / 4096) (pages_before_last fb)) in
      let many : length pairs ≡ pages_before_last fb =
        length-zip-range (found.slot * 2 ^ 27) (pages_before_last fb + 1) frames fits
        ∙ length-range (fb.physical / 4096) (pages_before_last fb) in
      let ran =
        map_to_frames-Ran machine a q v law pairs (stack_flags machine) c.mapper c.frame_allocator h
          (zipped_InReach InReach (found.slot * 2 ^ 27) (pages_before_last fb + 1) frames
            (λ j lo hi. law.low_InReach j (omega (arith, hi, found.low, is_buffer.small))))
          (Opens-zip machine a q v law c.mapper (found.slot * 2 ^ 27) (pages_before_last fb + 1)
            frames
            (λ j lo hi.
              let slot : j / 2 ^ 27 ≡ found.slot = omega (arith, lo, hi, is_buffer.small) in
              opens j (law.low_InReach j (omega (arith, hi, found.low, is_buffer.small)))
                (rw slot found.was_free)))
          (omega (arith, many, n)) in
      record {
        context = record {
          page_allocator = found.after;
          frame_allocator = ran.after;
          mapper = ran.mapper;
        };
        slot = found.slot;
        returns =
            rw
              (
                found.returns,
                buffer_pages fb is_buffer found.slot found.low,
                buffer_frames fb is_buffer found.slot found.low,
                ran.returns,
              )
              refl;
        low = found.low;
        was_free = found.was_free;
        others = found.others;
        valid = ran.valid;
        drops = Drops-weaken (omega (arith, many)) ran.drops;
        entries = λ p r.
            ran.entries p r
            ∙ ap (λ o. entry_after machine a q v law o (stack_flags machine) (entry_of c.mapper p))
                (mapped_to-range (found.slot * 2 ^ 27) (pages_before_last fb + 1) frames p fits
                  ∙ ap (λ o. if leb (found.slot * 2 ^ 27) p then o else none)
                      (get_elem?-range (fb.physical / 4096) (pages_before_last fb)
                        (p - found.slot * 2 ^ 27)));
      }
