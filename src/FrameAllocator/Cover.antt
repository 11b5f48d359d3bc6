-- ===== src/FrameAllocator/Cover.antt =====
-- What the regions that `construct_memory_map` is to write cover.
use uefi_bootloader.Prelude.{
  ℕ, zero, suc, ◌+◌, ◌-◌, ◌*◌, ◌/◌, ◌≤◌, ◌≡◌, refl, sym, ap, ◌∙◌, ◌≢◌, inl, inr, true, false, some,
  List, [], ◌∷◌, ◌++◌, arith, ltb, ◌==◌, ltb→le, ==→≡, Bool-cases, All, range,
}
use mathlib.Core.List.{append_assoc}
use uefi_bootloader.Memory.Address.{AddressSpace}
use uefi_bootloader.Api.{bootloader, MemoryRegion}
use uefi_bootloader.FrameAllocator.{MemoryTypes, MemoryDescriptor, CurrentDescriptor}
use uefi_bootloader.FrameAllocator.Queue.{
  first_frame, frames, is_allocatable, pending, left, IsCurrent, range_none,
}
use uefi_bootloader.FrameAllocator.Regions.{
  whole, used_len, free_len, parts, untouched, regions, regions_used, regions_passed, regions_other,
  SameAs, covered, all_frames, free,
}

whole_frames : (n : ℕ) → n * 4096 / 4096 ≡ n
whole_frames n = omega arith

range-append : (a m b n k : ℕ) → b ≡ a + m → k ≡ m + n → range a m ++ range b n ≡ range a k
range-append a zero b n k e f =
    let e' : b ≡ a = omega arith in let f' : k ≡ n = omega arith in rw (e', f')
range-append a (suc m) b n k e f =
    let f' : k ≡ suc (m + n) = omega arith in
    rw f' (ap (λ l. a ∷ l) (range-append (a + 1) m b n (m + n) (omega arith) refl))

range_cut : (f n p : ℕ) → f ≤ n → n ≤ f + p → range f (n - f) ++ range n (f + p - n) ≡ range f p
range_cut f n p h k = range-append f (n - f) n (f + p - n) p (omega arith) (omega arith)

module _ (space : AddressSpace) (c : CurrentDescriptor) (is : IsCurrent space c) where
  used_frames : used_len c / 4096 ≡ c.next_frame - first_frame c.descriptor
  used_frames = omega (arith, is.fits.aligned, is.from_first)

  free_frames :
      free_len c / 4096 ≡ first_frame c.descriptor + c.descriptor.page_count - c.next_frame
  free_frames = omega (arith, is.fits.aligned, is.from_first, is.to_last)

  free_start : (c.descriptor.phys_start + used_len c) / 4096 ≡ c.next_frame
  free_start = omega (arith, is.fits.aligned, is.from_first)

  -- The parts of the current descriptor are its frames, first those handed out.
  covered-parts :
      (rs : List MemoryRegion) → covered (parts c ++ rs) ≡ frames c.descriptor ++ covered rs
  unfolding covered
  covered-parts rs = elim (Bool-cases (ltb 0 (free_len c))) [
    | inl e ↦
        let f = first_frame c.descriptor in
        let n = c.next_frame in
        let p = c.descriptor.page_count in
        rw (e, used_frames, free_start, free_frames)
          (sym (append_assoc (range f (n - f)) (range n (f + p - n)) (covered rs))
            ∙ ap (λ l. l ++ covered rs) (range_cut f n p is.from_first is.to_last))
    | inr e ↦
        let full : c.next_frame - first_frame c.descriptor ≡ c.descriptor.page_count =
          omega (arith, is.fits.aligned, is.from_first, is.to_last, ltb→le _ _ e) in
        rw (e, used_frames, full)
  ]

  free-parts : (rs : List MemoryRegion) → free (parts c ++ rs) ≡ left (some c) ++ free rs
  unfolding free
  free-parts rs = elim (Bool-cases (ltb 0 (free_len c))) [
    | inl e ↦
        let high : ltb (c.descriptor.phys_start + used_len c) 0x1_0000 ≡ false =
          ground (arith, is.high) in
        rw (e, high, free_start, free_frames)
    | inr e ↦
        let gone : left (some c) ≡ [] =
          range_none _ _
            (omega (arith, is.fits.aligned, is.from_first, is.to_last, ltb→le _ _ e)) in
        rw (e, gone)
  ]

module _ (types : MemoryTypes) where
  -- A descriptor that is reported as it is counts as free exactly if it was allocatable.
  covered-untouched :
      (c : CurrentDescriptor) (ds : List MemoryDescriptor)
      → covered (regions types c true ds) ≡ all_frames ds
  unfolding regions covered all_frames
  covered-untouched c [] = refl
  covered-untouched c (d ∷ ds) = rw (whole_frames d.page_count, covered-untouched c ds)

  free-untouched :
      (c : CurrentDescriptor) (ds : List MemoryDescriptor)
      → free (regions types c true ds) ≡ pending types ds
  unfolding regions free pending
  free-untouched c [] = refl
  free-untouched c (d ∷ ds) = rw (whole_frames d.page_count, free-untouched c ds)

  free_bootloader :
      (d : MemoryDescriptor) (rs : List MemoryRegion) → free (whole d bootloader ∷ rs) ≡ free rs
  unfolding free
  free_bootloader d rs = refl

  free_as_reported :
      (d : MemoryDescriptor) (rs : List MemoryRegion)
      → is_allocatable types d ≡ false
      → free (untouched types d ∷ rs) ≡ free rs
  unfolding free
  free_as_reported d rs e = rw e

  module _ (space : AddressSpace) (c : CurrentDescriptor) (is : IsCurrent space c) where
    -- If what starts like the current descriptor has its pages, the regions cover the whole map.
    pub covered-regions :
        (ds : List MemoryDescriptor)
        → All (SameAs c.descriptor) ds
        → covered (regions types c false ds) ≡ all_frames ds
    unfolding covered all_frames
    covered-regions [] same = unfold regions in refl
    covered-regions (d ∷ ds) same = elim (Bool-cases (is_allocatable types d)) [
      | inl e ↦ elim (Bool-cases (d.phys_start == c.descriptor.phys_start)) [
        | inl here ↦
            rw
              (
                regions_used types c d ds e here,
                covered-parts space c is (regions types c true ds),
                covered-untouched c ds,
                ==→≡ _ _ here,
                same.0 (==→≡ _ _ here),
              )
              refl
        | inr other ↦ rw (
          regions_passed types c d ds e other,
          whole_frames d.page_count,
          covered-regions ds same.1,
        )
      ]
      | inr e ↦
          rw (regions_other types c d ds e, whole_frames d.page_count, covered-regions ds same.1)
    ]

    -- Free of the current descriptor is what it has left; of those before it, nothing.
    pub free-regions :
        (before after : List MemoryDescriptor)
        → All (λ d. d.phys_start ≢ c.descriptor.phys_start) before
        → is_allocatable types c.descriptor ≡ true
        → free (regions types c false (before ++ c.descriptor ∷ after))
          ≡ left (some c) ++ pending types after
    free-regions [] after apart chosen = rw (
      regions_used types c c.descriptor after chosen (ground arith),
      free-parts space c is (regions types c true after),
      free-untouched c after,
    )
    free-regions (d ∷ before) after apart chosen = elim (Bool-cases (is_allocatable types d)) [
      | inl e ↦
          rw
            (
              regions_passed types c d (before ++ c.descriptor ∷ after) e (ground (arith, apart.0)),
              free_bootloader,
            )
            (free-regions before after apart.1 chosen)
      | inr e ↦
          rw (regions_other types c d (before ++ c.descriptor ∷ after) e, free_as_reported d _ e)
            (free-regions before after apart.1 chosen)
    ]
