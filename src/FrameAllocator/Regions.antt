-- ===== src/FrameAllocator/Regions.antt =====
-- The regions that `construct_memory_map` is to write, as a function of the map and the descriptor
-- in use, and what they cover.
use uefi_bootloader.Prelude.{
  ℕ, ◌+◌, ◌-◌, ◌*◌, ◌/◌, ◌≤◌, ◌≡◌, refl, Bool, true, false, not, ◌&&◌, List, [], ◌∷◌, ◌++◌, arith,
  ltb, ◌==◌, if◌then◌else◌, length, range,
}
use uefi_bootloader.Memory.Chunk.{Chunk}
use uefi_bootloader.Api.{MemoryRegionKind, usable, bootloader, is_usable, MemoryRegion}
use uefi_bootloader.FrameAllocator.{
  MemoryTypes, MemoryDescriptor, CurrentDescriptor, descriptor_kind,
}
use uefi_bootloader.FrameAllocator.Queue.{frames, is_allocatable}

abbrev pub region : ℕ → ℕ → MemoryRegionKind → MemoryRegion
region start len kind = record { start = start; len = len; kind = kind }

abbrev pub whole : MemoryDescriptor → MemoryRegionKind → MemoryRegion
whole d kind = region d.phys_start (d.page_count * 4096) kind

-- The part of the current descriptor that was handed out, in bytes.
abbrev pub used_len : CurrentDescriptor → ℕ
used_len c = c.next_frame * 4096 - c.descriptor.phys_start

abbrev pub free_len : CurrentDescriptor → ℕ
free_len c = c.descriptor.page_count * 4096 - used_len c

abbrev pub free_part : CurrentDescriptor → List MemoryRegion
free_part c =
    if ltb 0 (free_len c)
    then region (c.descriptor.phys_start + used_len c) (free_len c) usable ∷ []
    else []

abbrev pub parts : CurrentDescriptor → List MemoryRegion
parts c = region c.descriptor.phys_start (used_len c) bootloader ∷ free_part c

module _ (types : MemoryTypes) where
  abbrev pub untouched : MemoryDescriptor → MemoryRegion
  untouched d = whole d (descriptor_kind types d)

  -- Up to the current descriptor what may be allocated was allocated; after it, nothing was.
  unfoldable pub regions : CurrentDescriptor → Bool → List MemoryDescriptor → List MemoryRegion
  regions c passed [] = []
  regions c true (d ∷ ds) = untouched d ∷ regions c true ds
  regions c false (d ∷ ds) =
      let after = regions c true ds in
      let rest = regions c false ds in
      if is_allocatable types d
      then (if d.phys_start == c.descriptor.phys_start
          then parts c ++ after
          else whole d bootloader ∷ rest)
      else untouched d ∷ rest

  module _ (c : CurrentDescriptor) (d : MemoryDescriptor) (ds : List MemoryDescriptor) where
    pub regions_after : regions c true (d ∷ ds) ≡ untouched d ∷ regions c true ds
    unfolding regions
    regions_after = refl

    pub regions_used :
        is_allocatable types d ≡ true
        → (d.phys_start == c.descriptor.phys_start) ≡ true
        → regions c false (d ∷ ds) ≡ parts c ++ regions c true ds
    unfolding regions
    regions_used e here = rw (e, here)

    pub regions_passed :
        is_allocatable types d ≡ true
        → (d.phys_start == c.descriptor.phys_start) ≡ false
        → regions c false (d ∷ ds) ≡ whole d bootloader ∷ regions c false ds
    unfolding regions
    regions_passed e other = rw (e, other)

    pub regions_other :
        is_allocatable types d ≡ false → regions c false (d ∷ ds) ≡ untouched d ∷ regions c false ds
    unfolding regions
    regions_other e = rw e

  pub length-regions :
      (c : CurrentDescriptor) (passed : Bool) (ds : List MemoryDescriptor)
      → length (regions c passed ds) ≤ length ds + (if passed then 0 else 1)
  unfolding regions
  length-regions c true [] = omega arith
  length-regions c false [] = omega arith
  length-regions c true (d ∷ ds) = omega (arith, length-regions c true ds)
  length-regions c false (d ∷ ds) =
      ground (arith, length-regions c true ds, length-regions c false ds)

abbrev pub region_frames : MemoryRegion → List Chunk
region_frames r = range (r.start / 4096) (r.len / 4096)

-- If the two start alike, they have the same number of pages.
abbrev pub SameAs : MemoryDescriptor → MemoryDescriptor → Type 0
SameAs c d = d.phys_start ≡ c.phys_start → d.page_count ≡ c.page_count

-- The frames of all regions, in order.
unfoldable pub covered : List MemoryRegion → List Chunk
covered [] = []
covered (r ∷ rs) = region_frames r ++ covered rs

unfoldable pub all_frames : List MemoryDescriptor → List Chunk
all_frames [] = []
all_frames (d ∷ ds) = frames d ++ all_frames ds

abbrev pub is_free : MemoryRegion → Bool
is_free r = is_usable r.kind && not (ltb r.start 0x1_0000)

-- The frames of the regions that are usable and do not start below `0x1_0000`.
unfoldable pub free : List MemoryRegion → List Chunk
free [] = []
free (r ∷ rs) = (if is_free r then region_frames r else []) ++ free rs
