-- ===== src/Context/NewFrames.antt =====
-- The loop that maps pages to new frames.
use uefi_bootloader.Prelude.{
  ℕ, suc, ◌+◌, ◌*◌, ◌≤◌, ◌≡◌, refl, sym, ap, Option, List, [], ◌∷◌, ◌++◌, arith, length, All,
  Outcome, ◌>>=◌, expect,
}
use mathlib.Core.List.{Sublistᴰ}
use mathlib.Core.Path.{subst}
use uefi_bootloader.Memory.Chunk.{Chunk}
use uefi_bootloader.Arch.Machine.{Machine, PageView, IsPageMap}
use uefi_bootloader.Context.{zip, map_to_new_frames}
use uefi_bootloader.FrameAllocator.Source.{FrameAllocator, IsQueue}
use uefi_bootloader.FrameAllocator.Draw.{
  Drops-trans, Drops-weaken, length-Drops, Allocates, got, out, allocates,
}
use uefi_bootloader.Context.Loops.{Ran, Ran-none, Ran-cons, Opens, Opens-step}

module _ (machine : Machine) (a : FrameAllocator) (q : IsQueue a) (v : PageView machine)
    (law : IsPageMap machine a q v) where
  open machine use {Mapper, PteFlags}
  open q use {left}
  open v use {Entry, entry_of, leaf, InReach}

  module _ (m : Mapper) (s : a.State) (flags : PteFlags) where
    -- The new frames that the pages of a loop are mapped to, in order.
    pub record RanNew (pages : List Chunk) (n : ℕ) (r : Outcome (Mapper × a.State)) : Type 0 where
      pub frames : List Chunk
      pub many : length frames ≡ length pages
      pub from_queue : Sublistᴰ frames (left s)
      pub ran : Ran machine a q v law m s n (zip pages frames) flags r

  after_draw :
      (m : Mapper) (s s' : a.State) (n total : ℕ) (f : Chunk) (pairs : List (Chunk × Chunk))
      (flags : PteFlags) (r : Outcome (Mapper × a.State))
      → left s ≡ f ∷ left s'
      → 1 + n ≤ total
      → Ran machine a q v law m s' n pairs flags r
      → Ran machine a q v law m s total pairs flags r
  after_draw m s s' n total f pairs flags r l h g = record {
    mapper = g.mapper;
    after = g.after;
    returns = g.returns;
    valid = g.valid;
    drops =
        Drops-weaken h
          (Drops-trans (record { taken = f ∷ []; split = l; few = omega arith }) g.drops);
    entries = g.entries;
  }

  pub past : {l : List Chunk} (t k : List Chunk) → Sublistᴰ l k → Sublistᴰ l (t ++ k)
  past [] k h = h
  past (x ∷ t) k h = Sublistᴰ.cons (past t k h)

  abbrev step_new :
      Chunk → List Chunk → PteFlags → Mapper → a.State × Option Chunk → Outcome (Mapper × a.State)
  step_new page pages flags m g = expect g.1 >>= λ frame.
      machine.map_page a m page frame flags g.0 >>= λ r.
      map_to_new_frames machine a pages flags r.0 r.1

  pub none_of : (l : List Chunk) → Sublistᴰ [] l
  none_of [] = Sublistᴰ.slnil
  none_of (x ∷ l) = Sublistᴰ.cons (none_of l)

  -- What the rest of the loop does.
  abbrev Rest : List Chunk → PteFlags → Type 0
  Rest pages flags =
      (m : Mapper) (s : a.State)
      → v.Valid a q m s
      → All InReach pages
      → Opens machine a q v law m pages
      → length pages * 4 ≤ length (left s)
      → RanNew m s flags pages (length pages * 4) (map_to_new_frames machine a pages flags m s)

  step_new-RanNew :
      (page : Chunk) (pages : List Chunk) (flags : PteFlags) (m : Mapper) (s : a.State)
      (g : a.State × Option Chunk)
      → Rest pages flags
      → v.Valid a q m s
      → InReach page
      → All InReach pages
      → Opens machine a q v law m (page ∷ pages)
      → suc (length pages) * 4 ≤ length (left s)
      → Allocates a q s g
      → RanNew m s flags (page ∷ pages) (suc (length pages) * 4) (step_new page pages flags m g)
  step_new-RanNew page pages flags m s _ rest h here reach opens n (got s' f w l) =
      let k =
        law.maps m page f flags s' (law.draws m s s' f h w l) here opens.0
          (omega (arith, n, ap length l)) in
      let g =
        rest k.mapper k.after k.valid reach
          (Opens-step machine a q v law m page f flags s' k pages reach opens.1 opens.2)
          (omega (arith, n, ap length l, length-Drops k.drops)) in
      record {
        frames = f ∷ g.frames;
        many = ap suc g.many;
        from_queue = subst (Sublistᴰ (f ∷ g.frames)) (sym l) (
            Sublistᴰ.cons-cons refl (
              subst (Sublistᴰ g.frames) (sym k.drops.split)
                (past k.drops.taken (left k.after) g.from_queue)));
        ran = after_draw m s s' (3 + length pages * 4) _ f _ flags _ l (omega arith) (
            Ran-cons machine a q v law m page f flags s' _
              (λ r. map_to_new_frames machine a pages flags r.0 r.1) (length pages * 4) _
              (zip pages g.frames) k g.ran (omega arith));
      }
  step_new-RanNew page pages flags m s _ rest h here reach opens n (out s' l) =
      absurd (omega (arith, n, ap length l))

  -- On a valid mapper, with different pages, all in reach and open, and four frames left for each of
  -- them, the loop returns; each page is mapped to its own new frame with the flags, in the order of the allocator's queue,
  -- every other page in reach keeps its entry, and the mapper is valid.
  pub map_to_new_frames-RanNew :
      (pages : List Chunk) (flags : PteFlags) (m : Mapper) (s : a.State)
      → v.Valid a q m s
      → All InReach pages
      → Opens machine a q v law m pages
      → length pages * 4 ≤ length (left s)
      → RanNew m s flags pages (length pages * 4) (map_to_new_frames machine a pages flags m s)
  unfolding map_to_new_frames
  map_to_new_frames-RanNew [] flags m s h reach opens n = record {
    frames = [];
    many = refl;
    from_queue = none_of (left s);
    ran = Ran-none machine a q v law m s flags h;
  }
  map_to_new_frames-RanNew (page ∷ pages) flags m s h reach opens n =
      step_new-RanNew page pages flags m s (a.allocate_frame s)
        (λ k s i r o n. map_to_new_frames-RanNew pages flags k s i r o n) h reach.0 reach.1 opens n
        (allocates a q s (law.queue m s h))
