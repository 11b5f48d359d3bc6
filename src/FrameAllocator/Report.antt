-- ===== src/FrameAllocator/Report.antt =====
-- The loop of `construct_memory_map` writes the regions of all descriptors.
use uefi_bootloader.Prelude.{
  ℕ, ◌+◌, ◌≤◌, ◌<◌, refl, inl, inr, Bool, true, false, List, [], ◌∷◌, ◌++◌, arith, ◌==◌, ==→≡,
  Bool-cases, length, length-append, All, Outcome,
}
use mathlib.Core.List.{append_assoc, append-nil}
use uefi_bootloader.Memory.Address.{AddressSpace}
use uefi_bootloader.Api.{bootloader, MemoryRegion}
use uefi_bootloader.FrameAllocator.{
  MemoryTypes, MemoryDescriptor, CurrentDescriptor, MapState, map_descriptor, map_descriptors,
}
use uefi_bootloader.FrameAllocator.Queue.{Fits, is_allocatable, IsCurrent}
use uefi_bootloader.FrameAllocator.Regions.{
  whole, parts, untouched, regions, regions_after, regions_used, regions_passed, regions_other,
  SameAs,
}
use uefi_bootloader.FrameAllocator.Buffer.{
  Holds, Writes, write-Writes, map_untouched, map_used_up, map_current,
}

-- A run of the loop that returns with the slice holding the regions.
abbrev pub Reports : ℕ → List MemoryRegion → Outcome MapState → Type 0
Reports room rs r = (passed : Bool) × Writes room passed rs r

module _ {room : ℕ} (rs first more : List MemoryRegion) where
  regroup : length rs + length (first ++ more) ≤ room → length (rs ++ first) + length more ≤ room
  regroup h = omega (arith, length-append rs first, length-append first more)

  enough_for : length rs + length (first ++ more) ≤ room → length rs + length first ≤ room
  enough_for h = omega (arith, length-append first more)

some_room :
    {room : ℕ} (rs : List MemoryRegion) (r : MemoryRegion) (more : List MemoryRegion)
    → length rs + length (r ∷ more) ≤ room
    → length rs < room
some_room rs r more h = omega arith

module _ (space : AddressSpace) (types : MemoryTypes) (c : CurrentDescriptor)
    (is : IsCurrent space c) where
  report_step :
      (rs first more : List MemoryRegion) (s : MapState) (d : MemoryDescriptor)
      (ds : List MemoryDescriptor) {room : ℕ} {passed : Bool}
      → Writes room passed (rs ++ first) (map_descriptor space types c d s)
      → ((s' : MapState)
          → Holds room passed (rs ++ first) s'
          → Reports room ((rs ++ first) ++ more) (map_descriptors space types c ds s'))
      → Reports room (rs ++ (first ++ more)) (map_descriptors space types c (d ∷ ds) s)
  unfolding map_descriptors
  report_step rs first more s d ds {room} w next =
      let (passed, rest) = next w.end w.holds in
      (
        passed,
        record {
          end = rest.end;
          returns = rw w.returns rest.returns;
          holds = rw (append_assoc rs first more) at rest.holds;
        },
      )

  pub map_descriptors-Reports :
      (ds : List MemoryDescriptor) (passed : Bool) (rs : List MemoryRegion) (s : MapState)
      {room : ℕ}
      → All (Fits space) ds
      → All (SameAs c.descriptor) ds
      → Holds room passed rs s
      → length rs + length (regions types c passed ds) ≤ room
      → Reports room (rs ++ regions types c passed ds) (map_descriptors space types c ds s)
  map_descriptors-Reports [] passed rs s fits same h enough = (
    passed,
    record {
      end = s;
      returns = unfold map_descriptors in refl;
      holds = unfold regions in rw (append-nil rs) h;
    },
  )
  map_descriptors-Reports (d ∷ ds) true rs s fits same h enough =
      let e = regions_after types c d ds in
      rw e (
        report_step rs (untouched types d ∷ []) (regions types c true ds) s d ds
          (rw (map_untouched space types c is s d fits.0 (inl h.passed))
            (write-Writes _ h (some_room rs (untouched types d) _ (rw e at enough))))
          λ s' h'.
            map_descriptors-Reports ds true _ s' fits.1 same.1 h' (regroup rs _ _ (rw e at enough)))
  map_descriptors-Reports (d ∷ ds) false rs s fits same h enough =
      elim (Bool-cases (is_allocatable types d)) [
        | inl e ↦ elim (Bool-cases (d.phys_start == c.descriptor.phys_start)) [
          | inl at ↦
              let k = regions_used types c d ds e at in
              rw k (
                report_step rs (parts c) (regions types c true ds) s d ds
                  (map_current space types c is s d fits.0 e (==→≡ _ _ at) (same.0 (==→≡ _ _ at)) h
                    (enough_for rs (parts c) _ (rw k at enough)))
                  λ s' h'.
                    map_descriptors-Reports ds true _ s' fits.1 same.1 h'
                      (regroup rs _ _ (rw k at enough)))
          | inr other ↦
              let k = regions_passed types c d ds e other in
              rw k (
                report_step rs (whole d bootloader ∷ []) (regions types c false ds) s d ds
                  (rw (map_used_up space types c is s d fits.0 h.passed e other)
                    (write-Writes _ h (some_room rs (whole d bootloader) _ (rw k at enough))))
                  λ s' h'.
                    map_descriptors-Reports ds false _ s' fits.1 same.1 h'
                      (regroup rs _ _ (rw k at enough)))
        ]
        | inr e ↦
            let k = regions_other types c d ds e in
            rw k (
              report_step rs (untouched types d ∷ []) (regions types c false ds) s d ds
                (rw (map_untouched space types c is s d fits.0 (inr e))
                  (write-Writes _ h (some_room rs (untouched types d) _ (rw k at enough))))
                λ s' h'.
                  map_descriptors-Reports ds false _ s' fits.1 same.1 h'
                    (regroup rs _ _ (rw k at enough)))
      ]
