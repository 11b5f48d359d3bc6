-- ===== src/FrameAllocator/Current.antt =====
-- What `allocate_frame` does with the current descriptor.
use uefi_bootloader.Prelude.{
  ◌+◌, ◌-◌, ◌*◌, ◌/◌, ◌≡◌, refl, Bool, true, false, not, ◌&&◌, none, some, List, arith, ltb,
  if◌then◌else◌, ltb→le,
}
use uefi_bootloader.Memory.Address.{AddressSpace, new_canonical, add, sub}
use uefi_bootloader.Memory.Address.Laws.{new_canonical_below, add-below, sub-below}
use uefi_bootloader.Memory.Chunk.Laws
use uefi_bootloader.Memory.Chunk.{containing_address}
use uefi_bootloader.FrameAllocator.{
  byte_len, MemoryDescriptor, CurrentDescriptor, allocate_frame_from_current,
}
use uefi_bootloader.FrameAllocator.Queue.{Fits, first_frame, IsCurrent, fresh, state}

module _ (space : AddressSpace) where
  end_frame-eq :
      (d : MemoryDescriptor)
      → Fits space d
      → containing_address (sub space (add space (new_canonical space d.phys_start) (byte_len d)) 1)
        ≡ (d.phys_start + d.page_count * 4096 - 1) / 4096
  unfolding containing_address
  end_frame-eq d fits =
      let first : new_canonical space d.phys_start ≡ d.phys_start =
        new_canonical_below space d.phys_start (omega (arith, fits.below)) in
      let bytes : byte_len d ≡ d.page_count * 4096 = omega (arith, fits.below, space.limit-le) in
      rw
        (
          first,
          bytes,
          add-below space d.phys_start (d.page_count * 4096) fits.below,
          sub-below space (d.phys_start + d.page_count * 4096) 1 fits.below,
        )
        refl

  -- One frame is taken from the current descriptor as long as it has one.
  pub from_current :
      (o m : List MemoryDescriptor) (c : CurrentDescriptor)
      → IsCurrent space c
      → allocate_frame_from_current space (state o m (some c)) ≡ (
          if ltb c.next_frame (first_frame c.descriptor + c.descriptor.page_count)
          then (state o m (some (record c { next_frame = c.next_frame + 1 })), some c.next_frame)
          else (state o m (some c), none))
  unfolding allocate_frame_from_current
  from_current o m c is =
      ground
        (arith, end_frame-eq c.descriptor is.fits, Laws.add-below c.next_frame 1, space.limit-le)

  pub fresh-IsCurrent :
      (d : MemoryDescriptor)
      → Fits space d
      → ltb d.phys_start 0x1_0000 ≡ false
      → IsCurrent space (fresh d)
  fresh-IsCurrent d fits high = record {
    fits = fits;
    high = ltb→le _ _ high;
    from_first = omega arith;
    to_last = omega arith;
  }

  pub taken_first :
      (d : MemoryDescriptor)
      → Fits space d
      → ltb d.phys_start 0x1_0000 ≡ false
      → ltb 0 d.page_count ≡ true
      → IsCurrent space (record { descriptor = d; next_frame = first_frame d + 1 })
  taken_first d fits high pos = record {
    fits = fits;
    high = ltb→le _ _ high;
    from_first = omega arith;
    to_last = ground arith;
  }

  pub next-IsCurrent :
      (c : CurrentDescriptor)
      → IsCurrent space c
      → ltb c.next_frame (first_frame c.descriptor + c.descriptor.page_count) ≡ true
      → IsCurrent space (record c { next_frame = c.next_frame + 1 })
  next-IsCurrent c is more = record {
    fits = is.fits;
    high = is.high;
    from_first = omega (arith, is.from_first);
    to_last = ground arith;
  }

  pub more_of_pos :
      (d : MemoryDescriptor)
      → ltb 0 d.page_count ≡ true
      → ltb (first_frame d) (first_frame d + d.page_count) ≡ true
  more_of_pos d h = ground arith

  pub none_of_zero :
      (d : MemoryDescriptor)
      → ltb 0 d.page_count ≡ false
      → ltb (first_frame d) (first_frame d + d.page_count) ≡ false
  none_of_zero d h = ground arith

  pub both_of : {b c : Bool} → (b && not c) ≡ true → (b ≡ true) × (c ≡ false)
  both_of h = ground arith
