-- ===== src/Context/Mappings/Stack.antt =====
-- The stack's pages: `map_stack`, on a valid context.
use uefi_bootloader.Prelude.{
  ℕ, zero, suc, ◌+◌, ◌-◌, ◌*◌, ◌/◌, ◌^◌, ◌≤◌, ◌<◌, ◌≡◌, refl, ap, ◌∙◌, ◌≢◌, true, false, none, List,
  arith, leb, if◌then◌else◌, length, get_elem?, All, range, Outcome, ok,
}
use mathlib.Core.Path.{ap₂}
use mathlib.Core.List.{Sublistᴰ}
use uefi_bootloader.Memory.Address.{AddressSpace, add, sub}
use uefi_bootloader.Memory.Address.Laws.{add-below, sub-below}
use uefi_bootloader.Memory.Chunk as Chunks
use uefi_bootloader.Memory.Chunk.Laws as ChunkLaws
use uefi_bootloader.Memory.Chunk.{Chunk, containing_address}
use uefi_bootloader.Memory.Range.Steps.{into_iter-range}
use uefi_bootloader.Memory.Range.{new, into_iter}
use uefi_bootloader.Arch.Machine.{Machine, IsMachine, PageView, IsPageMap}
use uefi_bootloader.FrameAllocator.Source.{FrameAllocator, IsQueue}
use uefi_bootloader.FrameAllocator.Draw.{Drops}
use uefi_bootloader.PageAllocator.Slots.{is_used}
use uefi_bootloader.Context.{RuntimeContext}
use uefi_bootloader.Context.Loops.{mapped_to-range, entry_after, Opens-range}
use uefi_bootloader.Context.NewFrames.{map_to_new_frames-RanNew}
use uefi_bootloader.Context.Mappings.{stack_size, stack_flags, map_stack}

-- The page of the last of `n` bytes.
pub last_page :
    (space : AddressSpace) (x n : ℕ)
    → 0 < n
    → x + n < space.limit
    → containing_address (sub space (add space x n) 1) ≡ (x + n - 1) / 4096
unfolding containing_address
last_page space x n pos h = rw (add-below space x n h, sub-below space (x + n) 1 h) refl

pub All-range : (P : ℕ → Type 0) (b n : ℕ) → ((i : ℕ) → b ≤ i → i < b + n → P i) → All P (range b n)
All-range P b zero h = tt
All-range P b (suc n) h = (
  h b (omega arith) (omega arith),
  All-range P (b + 1) n (λ i lo hi. h i (omega (arith, lo)) (omega (arith, hi))),
)

module _ (space : AddressSpace) (slot : ℕ) (low : slot < 256) (limit : 2 ^ 47 ≤ space.limit) where
  abbrev last : Chunk
  last = containing_address (sub space (add space (slot * 2 ^ 39) stack_size) 1)

  last_eq : last ≡ slot * 2 ^ 27 + 17
  last_eq =
      last_page space (slot * 2 ^ 39) stack_size (omega arith) (omega (arith, limit, low))
      ∙ omega arith

  stack_pages :
      into_iter (new (Chunks.add (containing_address (slot * 2 ^ 39)) 1) last)
      ≡ range (slot * 2 ^ 27 + 1) 17
  unfolding containing_address
  stack_pages =
      let first : Chunks.add (slot * 2 ^ 39 / 4096) 1 ≡ slot * 2 ^ 27 + 1 =
        ChunkLaws.add-below (slot * 2 ^ 39 / 4096) 1 (omega (arith, low)) ∙ omega arith in
      let many : last + 1 - Chunks.add (slot * 2 ^ 39 / 4096) 1 ≡ 17 =
        omega (arith, first, last_eq) in
      into_iter-range (new (Chunks.add (slot * 2 ^ 39 / 4096) 1) last) (omega (arith, last_eq, low))
      ∙ ap₂ range first many

module _ (machine : Machine) (is_machine : IsMachine machine) (a : FrameAllocator) (q : IsQueue a)
    (v : PageView machine) (law : IsPageMap machine a q v) where
  open q use {left}
  open v use {entry_of, leaf, InReach, IsOpen}

  -- The slot of the stack, its frames, and the pages that are mapped to them: all but the first one
  -- of the slot.
  pub record Stacked (c : RuntimeContext machine a) (r : Outcome (RuntimeContext machine a × Chunk))
      : Type 0 where
    pub context : RuntimeContext machine a
    pub slot : ℕ
    pub frames : List Chunk
    pub returns : r ≡ ok (context, slot * 2 ^ 27 + 17)
    pub low : slot < 256
    pub size : length context.page_allocator.entries ≡ 512
    pub was_free : is_used c.page_allocator slot ≡ false
    pub marked : is_used context.page_allocator slot ≡ true
    pub others : (i : ℕ) → i ≢ slot → is_used context.page_allocator i ≡ is_used c.page_allocator i
    pub many : length frames ≡ 17
    pub from_queue : Sublistᴰ frames (left c.frame_allocator)
    pub valid : v.Valid a q context.mapper context.frame_allocator
    pub drops : Drops 68 (left c.frame_allocator) (left context.frame_allocator)
    pub entries :
        (p : Chunk)
        → InReach p
        → entry_of context.mapper p
          ≡ entry_after machine a q v law
              (if leb (slot * 2 ^ 27 + 1) p
                then get_elem? frames (p - (slot * 2 ^ 27 + 1))
                else none)
              (stack_flags machine)
              (entry_of c.mapper p)

  pub map_stack-Stacked :
      (c : RuntimeContext machine a) (i : ℕ)
      → length c.page_allocator.entries ≡ 512
      → i < 256
      → is_used c.page_allocator i ≡ false
      → v.Valid a q c.mapper c.frame_allocator
      → ((p : Chunk)
          → InReach p
          → is_used c.page_allocator (p / 2 ^ 27) ≡ false
          → IsOpen (entry_of c.mapper p))
      → 68 ≤ length (left c.frame_allocator)
      → Stacked c (map_stack machine a c)
  unfolding map_stack
  map_stack-Stacked c i size low free h opens n =
      let found =
        is_machine.finds c.page_allocator stack_size i size (omega arith) (omega arith) low free in
      let pages = range (found.slot * 2 ^ 27 + 1) 17 in
      let new =
        map_to_new_frames-RanNew machine a q v law pages (stack_flags machine) c.mapper
          c.frame_allocator h
          (All-range InReach (found.slot * 2 ^ 27 + 1) 17
            (λ j lo hi. law.low_InReach j (omega (arith, hi, found.low))))
          (Opens-range machine a q v law c.mapper (found.slot * 2 ^ 27 + 1) 17 (λ j lo hi.
            let slot : j / 2 ^ 27 ≡ found.slot = omega (arith, lo, hi) in
            opens j (law.low_InReach j (omega (arith, hi, found.low))) (rw slot found.was_free)))
          n in
      let end = last_eq machine.virtual_space found.slot found.low is_machine.virtual_limit in
      record {
        context = record {
          page_allocator = found.after;
          frame_allocator = new.ran.after;
          mapper = new.ran.mapper;
        };
        slot = found.slot;
        frames = new.frames;
        returns =
            rw
              (
                found.returns,
                stack_pages machine.virtual_space found.slot found.low is_machine.virtual_limit,
                new.ran.returns,
                end,
              )
              refl;
        low = found.low;
        size = found.size;
        was_free = found.was_free;
        marked = found.marked;
        others = found.others;
        many = new.many;
        from_queue = new.from_queue;
        valid = new.ran.valid;
        drops = new.ran.drops;
        entries = λ p r.
            new.ran.entries p r
            ∙ ap (λ o. entry_after machine a q v law o (stack_flags machine) (entry_of c.mapper p))
                (mapped_to-range (found.slot * 2 ^ 27 + 1) 17 new.frames p
                  (omega (arith, new.many)));
      }
