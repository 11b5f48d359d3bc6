-- ===== src/BootInfo/InBoth.antt =====
-- The loop of `create_boot_info` of uefi-bootloader/src/boot_info.rs over its pages, on aarch64: it
-- writes the kernel's page tables and those in use, in one memory.
mod Tests
use uefi_bootloader.Prelude.{
  ℕ, suc, ◌+◌, ◌*◌, ◌≤◌, ◌≡◌, refl, sym, ap, ◌∙◌, Option, List, [], ◌∷◌, arith, length, All,
  Outcome, ◌>>=◌, expect, ok,
}
use mathlib.Core.List.{Sublistᴰ}
use mathlib.Core.Path.{subst}
use uefi_bootloader.Memory.Chunk.{Chunk}
use uefi_bootloader.Arch.{BitField}
use uefi_bootloader.Arch.Aarch64.Machine.{aarch64, page_view, aarch64-IsPageMap}
use uefi_bootloader.Arch.Aarch64.Mapper.{Mapper, map_page}
use uefi_bootloader.Arch.Aarch64.Mapper.Tree.{entry_of}
use uefi_bootloader.Arch.Aarch64.Mapper.Supply.{Fresh}
use uefi_bootloader.Arch.Aarch64.Mapper.Maps.{InReach, IsMapper}
use uefi_bootloader.Arch.Aarch64.Mapper.Beside.{IsBeside, IsBeside-swap, Leaves, map_page-Leaves}
use uefi_bootloader.BootInfo.Create.{boot_info_flags, map_in_both}
use uefi_bootloader.BootInfo.Turn.{replaced, turn, Turned, turned, IsBeside-draw}
use uefi_bootloader.Context.{zip}
use uefi_bootloader.Context.Loops.{mapped_to, entry_after, entry_of_cons}
use uefi_bootloader.Context.NewFrames.{past, none_of}
use uefi_bootloader.FrameAllocator.Source.{FrameAllocator, IsQueue}
use uefi_bootloader.FrameAllocator.Draw.{
  Drops, Drops-none, Drops-trans, Drops-weaken, length-Drops, Allocates, got, out, allocates,
}

module _ (bits : BitField) (a : FrameAllocator) (q : IsQueue a) where
  open q use {left}

  -- The entry of a page after the loop, from its entry before.
  abbrev later : List Chunk → List Chunk → Chunk → ℕ → ℕ
  later pages frames c =
      entry_after (aarch64 bits) a q (page_view bits) (aarch64-IsPageMap bits a q)
        (mapped_to (zip pages frames) c) (boot_info_flags (aarch64 bits))

  abbrev written : List Chunk → List Chunk → Mapper → Chunk → ℕ
  written pages frames m c = later pages frames c (entry_of bits m c)

  -- A loop that returns, with each page mapped to the same new frame by both mappers, and every
  -- other page kept by both.
  pub record InBoth (pages : List Chunk) (k l : Mapper) (s : a.State)
      (r : Outcome (Mapper × Mapper × a.State)) : Type 0 where
    pub mapper : Mapper
    pub in_use : Mapper
    pub after : a.State
    pub returns : r ≡ ok (mapper, in_use, after)
    pub beside : IsBeside bits a q mapper in_use after
    pub frames : List Chunk
    pub many : length frames ≡ length pages
    pub from_queue : Sublistᴰ frames (left s)
    pub drops : Drops (length pages * 7) (left s) (left after)
    pub in_mapper : (c : Chunk) → InReach c → entry_of bits mapper c ≡ written pages frames k c
    pub in_tables : (c : Chunk) → InReach c → entry_of bits in_use c ≡ written pages frames l c

  abbrev loop : List Chunk → Mapper → Mapper → a.State → Outcome (Mapper × Mapper × a.State)
  loop = map_in_both (aarch64 bits) a

  -- What the rest of the loop does.
  abbrev Rest : List Chunk → Type 0
  Rest pages =
      (k l : Mapper) (s : a.State)
      → IsBeside bits a q k l s
      → All InReach pages
      → length pages * 7 ≤ length (left s)
      → InBoth pages k l s (loop pages k l s)

  cons_entry :
      (page f : Chunk) (pages frames : List Chunk) (c : Chunk) (m : Mapper) (e : ℕ)
      → e ≡ later pages frames c (replaced bits a q page f m c)
      → e ≡ written (page ∷ pages) (f ∷ frames) m c
  cons_entry page f pages frames c m e h =
      h
      ∙ entry_of_cons (aarch64 bits) a q (page_view bits) (aarch64-IsPageMap bits a q) page f
          (zip pages frames) (boot_info_flags (aarch64 bits)) c (entry_of bits m c)

  turn-InBoth :
      (page f : Chunk) (pages : List Chunk) (k l : Mapper) (s s' : a.State)
      (t : Turned bits a q page f k l s')
      → left s ≡ f ∷ left s'
      → InBoth pages t.mapper t.in_use t.after (loop pages t.mapper t.in_use t.after)
      → InBoth (page ∷ pages) k l s (turn bits a q page f k l s' (loop pages))
  turn-InBoth page f pages k l s s' t e z =
      let one : Drops 1 (left s) (left s') = record {
        taken = f ∷ [];
        split = e;
        few = omega arith;
      } in
      record {
        mapper = z.mapper;
        in_use = z.in_use;
        after = z.after;
        returns = t.goes_on (loop pages) ∙ z.returns;
        beside = z.beside;
        frames = f ∷ z.frames;
        many = ap suc z.many;
        from_queue = subst (Sublistᴰ (f ∷ z.frames)) (sym e) (
            Sublistᴰ.cons-cons refl (
              subst (Sublistᴰ z.frames) (sym t.drops.split) (
                past (aarch64 bits) a q (page_view bits) (aarch64-IsPageMap bits a q) t.drops.taken
                  (left t.after) z.from_queue)));
        drops =
            Drops-weaken {n = 1 + (6 + length pages * 7)} (omega arith)
              (Drops-trans one (Drops-trans t.drops z.drops));
        in_mapper = λ c r.
            cons_entry page f pages z.frames c k (entry_of bits z.mapper c)
              (z.in_mapper c r ∙ ap (later pages z.frames c) (t.in_mapper c r));
        in_tables = λ c r.
            cons_entry page f pages z.frames c l (entry_of bits z.in_use c)
              (z.in_tables c r ∙ ap (later pages z.frames c) (t.in_tables c r));
      }

  draw-InBoth :
      (page : Chunk) (pages : List Chunk) (k l : Mapper) (s : a.State) (g : a.State × Option Chunk)
      → Rest pages
      → IsBeside bits a q k l s
      → InReach page
      → All InReach pages
      → suc (length pages) * 7 ≤ length (left s)
      → Allocates a q s g
      → InBoth (page ∷ pages) k l s (expect g.1 >>= λ f. turn bits a q page f k l g.0 (loop pages))
  draw-InBoth page pages k l s _ rest h here reach n (got s' f v e) =
      let t =
        turned bits a q page f k l s' (IsBeside-draw bits a q k l s s' f h v e) here
          (omega (arith, n, ap length e)) in
      turn-InBoth page f pages k l s s' t e (
        rest t.mapper t.in_use t.after t.beside reach
          (omega (arith, n, ap length e, length-Drops t.drops)))
  draw-InBoth page pages k l s _ rest h here reach n (out s' e) =
      absurd (omega (arith, n, ap length e))

  -- On aarch64, with two mappers whose tables stand in one memory, each a tree without block entries,
  -- where no table is in use by both and no frame left is a table in use by either, with pages of
  -- canonical addresses outside the recursive entry, and with seven frames left for each page, the loop
  -- returns: each page is mapped to the same frame in both, a new one for each page in the order of the
  -- allocator's queue, every other such page keeps its entry in both, and the mappers meet the same
  -- conditions again.
  pub map_in_both-InBoth :
      (pages : List Chunk) (k l : Mapper) (s : a.State)
      → IsBeside bits a q k l s
      → All InReach pages
      → length pages * 7 ≤ length (left s)
      → InBoth pages k l s (map_in_both (aarch64 bits) a pages k l s)
  unfolding map_in_both mapped_to
  map_in_both-InBoth [] k l s h reach n = record {
    mapper = k;
    in_use = l;
    after = s;
    returns = refl;
    beside = h;
    frames = [];
    many = refl;
    from_queue = none_of (aarch64 bits) a q (page_view bits) (aarch64-IsPageMap bits a q) (left s);
    drops = Drops-none (left s);
    in_mapper = λ c r. refl;
    in_tables = λ c r. refl;
  }
  map_in_both-InBoth (page ∷ pages) k l s h reach n =
      draw-InBoth page pages k l s (a.allocate_frame s)
        (λ k l s i r n. map_in_both-InBoth pages k l s i r n) h reach.0 reach.1 n
        (allocates a q s h.one.supply.valid)
