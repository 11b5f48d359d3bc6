-- ===== src/FrameAllocator/Handover.antt =====
-- The map for the kernel, after any number of allocations.
use uefi_bootloader.Prelude.{
  ◌+◌, ◌≤◌, ◌<◌, ◌≡◌, refl, sym, ap, ◌∙◌, ◌≢◌, inl, inr, false, Option, none, some, List, [], ◌∷◌,
  ◌++◌, map, arith, length, All, Outcome, ok, panic,
}
use mathlib.Core.Path.{subst}
use uefi_bootloader.Memory.Address.{AddressSpace}
use uefi_bootloader.Memory.Chunk.{Chunk}
use uefi_bootloader.Api.{MemoryRegion}
use uefi_bootloader.FrameAllocator.{
  MemoryTypes, MemoryDescriptor, CurrentDescriptor, LegacyFrameAllocator, new, len,
  construct_memory_map,
}
use uefi_bootloader.FrameAllocator.Queue.{pending, pending-append, left}
use uefi_bootloader.FrameAllocator.Regions.{
  regions, length-regions, SameAs, covered, all_frames, free,
}
use uefi_bootloader.FrameAllocator.Buffer.{Holds}
use uefi_bootloader.FrameAllocator.Report.{map_descriptors-Reports}
use uefi_bootloader.FrameAllocator.Accounts.{
  Apart, IsFirmwareMap, Allocated, made, took, Accounts, Allocated-Accounts,
}
use uefi_bootloader.FrameAllocator.Cover.{covered-regions, free-regions}

All-map {κ λ'} :
    {P : MemoryDescriptor → Type κ} {Q : MemoryDescriptor → Type λ'} (ds : List MemoryDescriptor)
    → ((d : MemoryDescriptor) → P d → Q d)
    → All P ds
    → All Q ds
All-map [] f h = tt
All-map (d ∷ ds) f h = (f d h.0, All-map ds f h.1)

distinct_before :
    (c : MemoryDescriptor) (before after : List MemoryDescriptor)
    → Apart (before ++ c ∷ after)
    → All (λ d. d.phys_start ≢ c.phys_start) before
distinct_before c [] after h = tt
distinct_before c (d ∷ before) after h =
    (λ e. (All_middle before h.0) (sym e), distinct_before c before after h.1)
  where
    All_middle :
        (xs : List MemoryDescriptor)
        → All (λ e. e.phys_start ≢ d.phys_start) (xs ++ c ∷ after)
        → c.phys_start ≢ d.phys_start
    All_middle [] k = k.0
    All_middle (x ∷ xs) k = All_middle xs k.1

alike :
    (c : MemoryDescriptor) (before after : List MemoryDescriptor)
    → Apart (before ++ c ∷ after)
    → All (SameAs c) (before ++ c ∷ after)
alike c [] after h = (λ e. refl, All-map after (λ d ne e. absurd (ne e)) h.0)
alike c (d ∷ before) after h =
    (λ e. absurd ((distinct_before c (d ∷ before) after h).0 e), alike c before after h.1)

module _ (space : AddressSpace) (types : MemoryTypes) where
  -- What `construct_memory_map` is to return: regions, all initialised, that fit the length the
  -- allocator reported, cover the frames of the firmware's map in order, and whose free frames
  -- follow those handed out.
  pub record Hands (ds : List MemoryDescriptor) (fs : List Chunk)
      (r : Outcome (List (Option MemoryRegion))) : Type 0 where
    pub regions : List MemoryRegion
    pub returns : r ≡ ok (map some regions)
    pub fits : length regions < length ds + 2
    pub coverage : covered regions ≡ all_frames ds
    pub accounts : fs ++ free regions ≡ pending types ds

  construct_at :
      (o m : List MemoryDescriptor) (c : CurrentDescriptor) (fs : List Chunk)
      (buffer : List (Option MemoryRegion))
      → IsFirmwareMap space o
      → Accounts space types o
          (record { original = o; memory_map = m; current_descriptor = some c })
          fs
      → length o + 2 ≤ length buffer
      → Hands o fs (
          construct_memory_map space types
            (record { original = o; memory_map = m; current_descriptor = some c })
            buffer)
  unfolding construct_memory_map
  construct_at o m c fs buffer fw a room =
      let at = a.inv.at in
      let after = at.skipped ++ m in
      let apart = subst Apart at.split fw.apart in
      let same : All (SameAs c.descriptor) o =
        rw at.split (alike c.descriptor at.before after apart) in
      let start : Holds (length buffer) false []
          (record { buffer = buffer; index = 0; iterated_through_used_descriptors = false }) =
        record { items = refl; index = refl; room = refl; passed = refl } in
      let rest : pending types after ≡ pending types m =
        pending-append types at.skipped m ∙ rw at.skipped_none in
      let freed : free (regions types c false o) ≡ left (some c) ++ pending types m =
        ap (λ l. free (regions types c false l)) at.split
        ∙ free-regions types space c a.inv.current at.before after
            (distinct_before c.descriptor at.before after apart) at.chosen.0
        ∙ ap (λ l. left (some c) ++ l) rest in
      let (passed, run) =
        map_descriptors-Reports space types c a.inv.current o false [] _ fw.fits same start
          (omega (arith, length-regions types c false o)) in
      record {
        regions = regions types c false o;
        returns = rw run.returns (ap ok run.holds.items);
        fits = omega (arith, length-regions types c false o);
        coverage = covered-regions types space c a.inv.current o same;
        accounts = ap (λ l. fs ++ l) freed ∙ a.total;
      }

  construct_none :
      (s : LegacyFrameAllocator) (fs : List Chunk) (buffer : List (Option MemoryRegion))
      → {ds : List MemoryDescriptor} → Allocated space types ds s fs
      → fs ≡ []
      → construct_memory_map space types s buffer ≡ panic
  unfolding construct_memory_map new
  construct_none _ _ buffer made e = refl
  construct_none _ _ buffer (took {fs} r k) e = absurd (not_empty fs _ e)
    where
      not_empty : (xs : List Chunk) (f : Chunk) → xs ++ f ∷ [] ≡ [] → ⊥
      not_empty [] f h = cc
      not_empty (x ∷ xs) f h = cc

  construct_some :
      (o m : List MemoryDescriptor) (c : Option CurrentDescriptor) (fs : List Chunk)
      (buffer : List (Option MemoryRegion))
      → IsFirmwareMap space o
      → Accounts space types o (record { original = o; memory_map = m; current_descriptor = c }) fs
      → fs ≢ []
      → length o + 2 ≤ length buffer
      → Hands o fs (
          construct_memory_map space types
            (record { original = o; memory_map = m; current_descriptor = c })
            buffer)
  construct_some o m (some c) fs buffer fw a ne room = construct_at o m c fs buffer fw a room
  construct_some o m none fs buffer fw a ne room = elim a.held [
    | inl e ↦ absurd (ne e)
    | inr held ↦ cc held.1
  ]

  Accounts-original :
      {ds : List MemoryDescriptor} {s : LegacyFrameAllocator} {fs : List Chunk}
      → Accounts space types ds s fs
      → Accounts space types s.original s fs
  Accounts-original a = record {
    inv = a.inv;
    same = refl;
    total = rw a.same a.total;
    held = a.held;
  }

  -- `construct_memory_map`, for an allocator that has handed out at least one frame of the
  -- firmware's map and a slice as long as `len` says, returns without a panic. All the regions
  -- returned are initialised, they are fewer than `len`, and they cover the frames of the firmware's
  -- map in order. The frames handed out, followed by those of the regions that are usable and do not
  -- start below 0x1_0000, are the map's usable frames in order: nothing that was handed out is
  -- reported free, and nothing else is lost. If no frame was handed out, it panics.
  pub construct_memory_map-Hands :
      (ds : List MemoryDescriptor) (s : LegacyFrameAllocator) (fs : List Chunk)
      (buffer : List (Option MemoryRegion))
      → IsFirmwareMap space ds
      → Allocated space types ds s fs
      → len s ≤ length buffer
      → (fs ≢ [] → Hands ds fs (construct_memory_map space types s buffer))
        × (fs ≡ [] → construct_memory_map space types s buffer ≡ panic)
  construct_memory_map-Hands ds s fs buffer fw r room = (
    λ ne.
        let a = Allocated-Accounts space types fw r in
        subst (λ l. Hands l fs (construct_memory_map space types s buffer)) a.same
          (construct_some s.original s.memory_map s.current_descriptor fs buffer
            (subst (IsFirmwareMap space) (sym a.same) fw) (Accounts-original a) ne
            (unfold len in room)),
    λ e. construct_none s fs buffer r e,
  )
