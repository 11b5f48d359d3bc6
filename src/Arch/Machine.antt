-- ===== src/Arch/Machine.antt =====
-- uefi-bootloader/src/arch/mod.rs: what the rest of the program uses of the architecture that it is
-- built for, and what that promises.
use uefi_bootloader.Prelude.{
  ℕ, ◌*◌, ◌^◌, ◌≤◌, ◌<◌, ◌≡◌, ◌≢◌, Bool, true, false, ◌∷◌, ◌==◌, if◌then◌else◌, length, Outcome, ok,
}
use uefi_bootloader.Memory.Address.{AddressSpace, Address}
use uefi_bootloader.Memory.Chunk.{Chunk}
use uefi_bootloader.FrameAllocator.Source.{FrameAllocator, IsQueue}
use uefi_bootloader.FrameAllocator.Draw.{Drops}
use uefi_bootloader.PageAllocator.{PageAllocator}
use uefi_bootloader.PageAllocator.Slots.{is_used}

-- The tables of all mappers stand in one memory, in which `new` makes the first mapper: `share k l` is `l` in the memory that `k` left, and
-- `current` makes the mapper of the tables in use, which a register holds, in the memory of another.
pub record Machine : Type 1 where
  pub is_x86_64 : Bool
  pub virtual_space : AddressSpace
  pub physical_space : AddressSpace
  pub get_free_address : PageAllocator → ℕ → Outcome (PageAllocator × Address)
  pub PteFlags : Type 0
  pub no_flags : PteFlags
  pub present : PteFlags → Bool → PteFlags
  pub writable : PteFlags → Bool → PteFlags
  pub no_execute : PteFlags → Bool → PteFlags
  pub Mapper : Type 0
  pub Register : Type 0
  pub frame : Mapper → Chunk
  pub map_page :
      (a : FrameAllocator)
      → Mapper
      → Chunk
      → Chunk
      → PteFlags
      → a.State
      → Outcome (Mapper × a.State)
  pub set_up_arch_specific_mappings : Mapper → Outcome Mapper
  pub Tables : Type 0
  pub new : (a : FrameAllocator) → Tables → a.State → Outcome (Mapper × a.State)
  pub share : Mapper → Mapper → Mapper
  pub current :
      (a : FrameAllocator) → Mapper → Register → a.State → Outcome (Mapper × Register × a.State)

-- `r` gave out the start of a slot of 512 GiB that was free, below `2 ^ 47`, and marked that slot
-- alone.
pub record Finds (s : PageAllocator) (r : Outcome (PageAllocator × Address)) : Type 0 where
  pub after : PageAllocator
  pub slot : ℕ
  pub returns : r ≡ ok (after, slot * 2 ^ 39)
  pub low : slot < 256
  pub size : length after.entries ≡ 512
  pub was_free : is_used s slot ≡ false
  pub marked : is_used after slot ≡ true
  pub others : (i : ℕ) → i ≢ slot → is_used after i ≡ is_used s i

-- The address spaces reach `2 ^ 47` at least, and a slot is found if one of the first 256 is free.
pub record IsMachine (m : Machine) : Type 0 where
  pub virtual_limit : 2 ^ 47 ≤ m.virtual_space.limit
  pub physical_limit : 2 ^ 48 ≤ m.physical_space.limit
  pub finds :
      (s : PageAllocator) (len i : ℕ)
      → length s.entries ≡ 512
      → 0 < len
      → len ≤ 2 ^ 39
      → i < 256
      → is_used s i ≡ false
      → Finds s (m.get_free_address s len)

-- What the entries of a mapper are, which of them a new mapping may replace, and which mappers are
-- valid with which allocators.
pub record PageView (m : Machine) : Type 1 where
  pub Entry : Type 0
  pub entry_of : m.Mapper → Chunk → Entry
  pub leaf : Chunk → m.PteFlags → Entry
  pub InReach : Chunk → Type 0
  pub IsOpen : Entry → Type 0
  pub Valid : (a : FrameAllocator) → IsQueue a → m.Mapper → a.State → Type 0

module _ (m : Machine) (a : FrameAllocator) (q : IsQueue a) where
  -- A call that returns: the page has the new entry, every other page in reach keeps its own, and at
  -- most three frames are gone.
  pub record Mapped (v : PageView m) (k : m.Mapper) (page frame : Chunk) (flags : m.PteFlags)
      (s : a.State) (r : Outcome (m.Mapper × a.State)) : Type 0 where
    pub mapper : m.Mapper
    pub after : a.State
    pub returns : r ≡ ok (mapper, after)
    pub valid : v.Valid a q mapper after
    pub drops : Drops 3 (q.left s) (q.left after)
    pub entries :
        (c : Chunk)
        → v.InReach c
        → v.entry_of mapper c ≡ (if c == page then v.leaf frame flags else v.entry_of k c)

  -- A call that returns, and leaves the entries of all pages in reach.
  pub record SetsUp (v : PageView m) (k : m.Mapper) (s : a.State) (r : Outcome m.Mapper)
      : Type 0 where
    pub set_up : m.Mapper
    pub returns : r ≡ ok set_up
    pub valid : v.Valid a q set_up s
    pub entries : (c : Chunk) → v.InReach c → v.entry_of set_up c ≡ v.entry_of k c

  -- The promise: the mapper maps one page at a time. It has to bear that others take frames too.
  pub record IsPageMap (v : PageView m) : Type 1 where
    pub low_InReach : (c : Chunk) → c < 2 ^ 35 → v.InReach c
    pub queue : (k : m.Mapper) (s : a.State) → v.Valid a q k s → q.Valid s
    pub draws :
        (k : m.Mapper) (s s' : a.State) (f : Chunk)
        → v.Valid a q k s
        → q.Valid s'
        → q.left s ≡ f ∷ q.left s'
        → v.Valid a q k s'
    pub maps :
        (k : m.Mapper) (page frame : Chunk) (flags : m.PteFlags) (s : a.State)
        → v.Valid a q k s
        → v.InReach page
        → v.IsOpen (v.entry_of k page)
        → 3 ≤ length (q.left s)
        → Mapped v k page frame flags s (m.map_page a k page frame flags s)
    pub sets_up :
        (k : m.Mapper) (s : a.State)
        → v.Valid a q k s
        → SetsUp v k s (m.set_up_arch_specific_mappings k)
