-- ===== src/FrameAllocator/Accounts.antt =====
-- Any number of calls of `allocate_frame`, from a fresh allocator on.
use uefi_bootloader.Prelude.{
  ◌≡◌, refl, sym, ◌∙◌, ◌≢◌, ◌⊎◌, inl, inr, Option, none, some, List, [], ◌∷◌, ◌++◌, All,
}
use mathlib.Core.List.{append_assoc}
use uefi_bootloader.Memory.Address.{AddressSpace}
use uefi_bootloader.Memory.Chunk.{Chunk}
use uefi_bootloader.FrameAllocator.{
  MemoryTypes, MemoryDescriptor, CurrentDescriptor, LegacyFrameAllocator, new, allocate_frame,
}
use uefi_bootloader.FrameAllocator.Queue.{Fits, pending, remaining, Inv, Held, Took}
use uefi_bootloader.FrameAllocator.Allocate.{allocate_frame-Took}

-- What the firmware promises: descriptors of whole pages below the highest address, no two of which
-- start alike.
abbrev pub Apart : List MemoryDescriptor → Type 0
Apart [] = Unit
Apart (d ∷ ds) = All (λ e. e.phys_start ≢ d.phys_start) ds × Apart ds

pub record IsFirmwareMap (space : AddressSpace) (ds : List MemoryDescriptor) : Type 0 where
  pub fits : All (Fits space) ds
  pub apart : Apart ds

module _ (space : AddressSpace) (types : MemoryTypes) where
  -- The states that an allocator for the map can be in, with the frames handed out so far.
  pub data Allocated (ds : List MemoryDescriptor) : LegacyFrameAllocator → List Chunk → Type 0 where
    made : Allocated ds (new ds) []
    took :
        {s s' : LegacyFrameAllocator} {f : Chunk} {fs : List Chunk}
        → Allocated ds s fs
        → allocate_frame space types s ≡ (s', some f)
        → Allocated ds s' (fs ++ f ∷ [])

  -- What every such state satisfies.
  pub record Accounts (ds : List MemoryDescriptor) (s : LegacyFrameAllocator) (fs : List Chunk)
      : Type 0 where
    pub inv : Inv space types s
    pub same : s.original ≡ ds
    pub total : fs ++ remaining types s ≡ pending types ds
    pub held : (fs ≡ []) ⊎ ((c : CurrentDescriptor) × (s.current_descriptor ≡ some c))

  new-Accounts : {ds : List MemoryDescriptor} → IsFirmwareMap space ds → Accounts ds (new ds) []
  unfolding new
  new-Accounts {ds} fw = record {
    inv = record {
      fits = fw.fits;
      current = tt;
      at = record {
        before = [];
        skipped = [];
        skipped_none = unfold pending in refl;
        chosen = tt;
        split = refl;
      };
    };
    same = refl;
    total = refl;
    held = inl refl;
  }

  current_of_some :
      (f : Chunk) (c : Option CurrentDescriptor)
      → Held (some f) c
      → (d : CurrentDescriptor) × (c ≡ some d)
  current_of_some f none h = absurd h
  current_of_some f (some d) h = (d, refl)

  next-Accounts :
      {ds : List MemoryDescriptor} {s s' : LegacyFrameAllocator} {f : Chunk} {fs : List Chunk}
      → Accounts ds s fs
      → Took space types s.original (remaining types s) (s', some f)
      → Accounts ds s' (fs ++ f ∷ [])
  next-Accounts {s} {s'} {f} {fs} a t = record {
    inv = t.inv;
    same = t.same ∙ a.same;
    total = append_assoc fs (f ∷ []) (remaining types s') ∙ rw (sym t.taken) a.total;
    held = inr (current_of_some f s'.current_descriptor t.held);
  }

  -- However many frames an allocator for the firmware's map has handed out, these are the first of
  -- the map's usable frames, in order, and what it has left are the others; so no frame is handed
  -- out twice where the map lists none twice.
  pub Allocated-Accounts :
      {ds : List MemoryDescriptor} {s : LegacyFrameAllocator} {fs : List Chunk}
      → IsFirmwareMap space ds
      → Allocated ds s fs
      → Accounts ds s fs
  Allocated-Accounts fw made = new-Accounts fw
  Allocated-Accounts {ds} fw (took {s} {s'} {f} {fs} r e) =
      let a = Allocated-Accounts fw r in
      next-Accounts a (rw e at (allocate_frame-Took space types s a.inv))
