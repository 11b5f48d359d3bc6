-- ===== src/Context/Samples.antt =====
-- A machine with a plain map for its page tables, and a firmware with a few frames, for the runs.
use uefi_bootloader.Prelude.{
  ℕ, suc, ◌+◌, ◌-◌, ◌*◌, ◌^◌, ◌≤◌, ◌<◌, ◌≡◌, refl, inl, inr, false, Option, none, some, arith, leb,
  ◌==◌, if◌then◌else◌, leb→le, leb→lt, Bool-cases, range, Outcome, ok,
}
use uefi_bootloader.PageAllocator as PageAllocators
use uefi_bootloader.PageAllocator.{ProgramHeader}
use uefi_bootloader.PageAllocator.Slots.{InHalf}
use uefi_bootloader.Context.Segment.{BootContext}
use uefi_bootloader.Context.Segment.Loadable.{IsLoadable}
use uefi_bootloader.Memory.Address.{new_canonical}
use uefi_bootloader.Memory.Chunk.{Chunk, containing_address}
use uefi_bootloader.Arch.BitRanges.{bit_ranges}
use uefi_bootloader.Arch.Machine.{Machine, IsMachine, PageView, Mapped, IsPageMap}
use uefi_bootloader.Arch.Aarch64.Canonical.{virtual_space, physical_space, physical_closed}
use uefi_bootloader.Arch.Aarch64.Flags as Flags
use uefi_bootloader.Arch.Aarch64.Machine.{aarch64-IsMachine}
use uefi_bootloader.FrameAllocator.Source.{
  FrameAllocator, IsQueue, AllocateType, BootServices, frame_of, uefi,
}
use uefi_bootloader.FrameAllocator.Queue.{Dequeues}
use uefi_bootloader.FrameAllocator.Draw.{Drops-none, Drops-weaken}
use uefi_bootloader.PageAllocator.Aarch64.{get_free_address}

abbrev pub Entry : Type 0
Entry = Option (Chunk × ℕ)

abbrev pub map_one :
    (a : FrameAllocator)
    → (Chunk → Entry)
    → Chunk
    → Chunk
    → ℕ
    → a.State
    → Outcome ((Chunk → Entry) × a.State)
map_one a k page f flags s = ok ((λ c. if c == page then some (f, flags) else k c), s)

abbrev pub flat : Machine
flat = record {
  is_x86_64 = false;
  virtual_space = virtual_space bit_ranges;
  physical_space = physical_space bit_ranges;
  get_free_address = get_free_address bit_ranges;
  PteFlags = ℕ;
  no_flags = Flags.new;
  present = Flags.present;
  writable = Flags.writable;
  no_execute = Flags.no_execute;
  Mapper = Chunk → Entry;
  Register = Chunk → Entry;
  frame = λ k. 0;
  map_page = map_one;
  set_up_arch_specific_mappings = λ k. ok k;
  Tables = Unit {0};
  new = λ a tables s. ok ((λ c. none), s);
  share = λ k l. l;
  current = λ a k used s. ok (used, used, s);
}

pub flat-IsMachine : IsMachine flat
flat-IsMachine =
    let law = aarch64-IsMachine bit_ranges in
    record {
      virtual_limit = law.virtual_limit;
      physical_limit = law.physical_limit;
      finds = law.finds;
    }

abbrev pub flat_view : PageView flat
flat_view = record {
  Entry = Entry;
  entry_of = λ k c. k c;
  leaf = λ f flags. some (f, flags);
  InReach = λ c. Unit {0};
  IsOpen = λ e. Unit {0};
  Valid = λ a q k s. q.Valid s;
}

flat-Mapped :
    (a : FrameAllocator) (q : IsQueue a) (k : Chunk → Entry) (page f : Chunk) (flags : ℕ)
    (s : a.State)
    → q.Valid s
    → Mapped flat a q flat_view k page f flags s (map_one a k page f flags s)
flat-Mapped a q k page f flags s h = record {
  mapper = λ c. if c == page then some (f, flags) else k c;
  after = s;
  returns = refl;
  valid = h;
  drops = Drops-weaken (omega arith) (Drops-none (q.left s));
  entries = λ c reach. refl;
}

pub flat-IsPageMap : (a : FrameAllocator) (q : IsQueue a) → IsPageMap flat a q flat_view
flat-IsPageMap a q = record {
  low_InReach = λ c h. tt;
  queue = λ k s h. h;
  draws = λ k s s' f h h' l. h';
  maps = λ k page f flags s h reach open' n. flat-Mapped a q k page f flags s h;
  sets_up = λ k s h. record { set_up = k; returns = refl; valid = h; entries = λ c reach. refl };
}

-- The firmware hands out the pages up to the page 540.
abbrev pub next_pages : ℕ → AllocateType → ℕ → ℕ → ℕ × Option ℕ
next_pages s allocate_type memory_type n =
    if leb (s + n) 540 then (s + n, some (s * 4096)) else (s, none)

abbrev pub few_pages : BootServices
few_pages = record { State = ℕ; allocate_pages = next_pages }

frame_of_page :
    (s : ℕ)
    → s < 540
    → containing_address (new_canonical (physical_space bit_ranges) (s * 4096)) ≡ s
unfolding containing_address new_canonical physical_space
frame_of_page s h = omega (arith, h, physical_closed (s * 4096))

abbrev pub one_frame : ℕ → ℕ × Option Chunk
one_frame s = (
  (next_pages s AllocateType.any_pages 0 1).0,
  frame_of (physical_space bit_ranges) (next_pages s AllocateType.any_pages 0 1).1,
)

pub one_frame-Dequeues :
    (s : ℕ)
    → s ≤ 540
    → ((one_frame s).0 ≤ 540)
      × Dequeues (range s (540 - s)) (one_frame s).1 (range (one_frame s).0 (540 - (one_frame s).0))
one_frame-Dequeues s h = elim (Bool-cases (leb (s + 1) 540)) [
  | inl e ↦
      let lt : s < 540 = omega (arith, leb→le (s + 1) 540 e) in
      let more : 540 - s ≡ suc (540 - (s + 1)) = omega (arith, lt) in
      rw (e, more, frame_of_page s lt) (omega (arith, lt), refl)
  | inr e ↦
      let none_left : 540 - s ≡ 0 = omega (arith, leb→lt (s + 1) 540 e) in
      rw (e, none_left) (h, (refl, refl))
]

abbrev pub few_pages-IsQueue : IsQueue (uefi (physical_space bit_ranges) few_pages)
few_pages-IsQueue = record {
  Valid = λ s. s ≤ 540;
  left = λ s. range s (540 - s);
  keeps = λ s h. (one_frame-Dequeues s h).0;
  dequeues = λ s h. (one_frame-Dequeues s h).1;
}

-- A segment of three bytes and zeros, across three pages, and the context that it is loaded in.
abbrev pub segment : ProgramHeader
segment = record {
  p_type = 1;
  p_flags = 5;
  p_offset = 0x40;
  p_vaddr = 0x40_0123;
  p_paddr = 0x40_0123;
  p_filesz = 3;
  p_memsz = 0x2000;
}

abbrev pub before_loading : BootContext flat few_pages
before_loading = record {
  firmware = 500;
  memory = λ x. 9;
  page_allocator = PageAllocators.new;
  mapper = λ c. none;
}

pub low_half : (v n : ℕ) → v + n < 2 ^ 48 → InHalf (virtual_space bit_ranges) v n
unfolding virtual_space
low_half v n h = record {
  below = omega (arith, h);
  canonical = λ k le. (virtual_space bit_ranges).canonicalize_below (v + k) (omega (arith, h, le));
  half = omega (arith, h);
}

pub segment-IsLoadable :
    IsLoadable flat flat-IsMachine few_pages few_pages-IsQueue flat_view
      (flat-IsPageMap (uefi (physical_space bit_ranges) few_pages) few_pages-IsQueue)
      segment
      before_loading
      (500 * 4096)
      503
unfolding PageAllocators.new
segment-IsLoadable = record {
  not_empty = omega arith;
  half = low_half 0x40_0123 0x2000 (omega arith);
  reach = λ i lo hi. tt;
  opens = λ i lo hi. tt;
  size = refl;
  allocated = refl;
  aligned = refl;
  below = omega arith;
  valid = omega arith;
  enough = omega arith;
}
