-- ===== src/FrameAllocator/Queue.antt =====
-- The allocator as a queue: the usable frames of the firmware's map, in order.
use uefi_bootloader.Prelude.{
  ℕ, zero, suc, ◌+◌, ◌-◌, ◌*◌, ◌/◌, ◌%◌, ◌≤◌, ◌<◌, ◌≡◌, refl, sym, Bool, true, not, ◌&&◌, Option,
  none, some, List, [], ◌∷◌, ◌++◌, arith, ltb, if◌then◌else◌, All, range,
}
use mathlib.Core.List.{append_assoc}
use uefi_bootloader.Memory.Address.{AddressSpace}
use uefi_bootloader.Memory.Chunk.{Chunk}
use uefi_bootloader.Api.{is_usable}
use uefi_bootloader.FrameAllocator.{
  MemoryTypes, MemoryDescriptor, CurrentDescriptor, LegacyFrameAllocator, descriptor_kind,
}

-- A descriptor of whole pages, all of them below the highest address.
pub record Fits (space : AddressSpace) (d : MemoryDescriptor) : Type 0 where
  pub aligned : d.phys_start % 4096 ≡ 0
  pub below : d.phys_start + d.page_count * 4096 < space.limit

abbrev pub first_frame : MemoryDescriptor → Chunk
first_frame d = d.phys_start / 4096

abbrev pub frames : MemoryDescriptor → List Chunk
frames d = range (first_frame d) d.page_count

abbrev pub is_allocatable : MemoryTypes → MemoryDescriptor → Bool
is_allocatable types d = is_usable (descriptor_kind types d) && not (ltb d.phys_start 0x1_0000)

-- The frames that may be handed out, in the order of the map.
unfoldable pub pending : MemoryTypes → List MemoryDescriptor → List Chunk
pending types [] = []
pending types (d ∷ ds) = (if is_allocatable types d then frames d else []) ++ pending types ds

abbrev pub left : Option CurrentDescriptor → List Chunk
left none = []
left (some c) =
    range c.next_frame (first_frame c.descriptor + c.descriptor.page_count - c.next_frame)

-- What an allocator has still to hand out.
abbrev pub remaining : MemoryTypes → LegacyFrameAllocator → List Chunk
remaining types s = left s.current_descriptor ++ pending types s.memory_map

pub record IsCurrent (space : AddressSpace) (c : CurrentDescriptor) : Type 0 where
  pub fits : Fits space c.descriptor
  pub high : 0x1_0000 ≤ c.descriptor.phys_start
  pub from_first : first_frame c.descriptor ≤ c.next_frame
  pub to_last : c.next_frame ≤ first_frame c.descriptor + c.descriptor.page_count

abbrev pub IsCurrentIn : AddressSpace → Option CurrentDescriptor → Type 0
IsCurrentIn space none = Unit
IsCurrentIn space (some c) = IsCurrent space c

abbrev pub here : Option CurrentDescriptor → List MemoryDescriptor
here none = []
here (some c) = c.descriptor ∷ []

-- The map is what lies before the current descriptor, that descriptor, what was skipped after it,
-- and what is left.
pub record IsAt (types : MemoryTypes) (whole rest : List MemoryDescriptor)
    (current : Option CurrentDescriptor) : Type 0 where
  pub before : List MemoryDescriptor
  pub skipped : List MemoryDescriptor
  pub skipped_none : pending types skipped ≡ []
  pub chosen : All (λ d. is_allocatable types d ≡ true) (here current)
  pub split : whole ≡ before ++ (here current ++ (skipped ++ rest))

pub record Inv (space : AddressSpace) (types : MemoryTypes) (s : LegacyFrameAllocator)
    : Type 0 where
  pub fits : All (Fits space) s.memory_map
  pub current : IsCurrentIn space s.current_descriptor
  pub at : IsAt types s.original s.memory_map s.current_descriptor

abbrev pub Dequeues : List Chunk → Option Chunk → List Chunk → Type 0
Dequeues old none new = (old ≡ []) × (new ≡ [])
Dequeues old (some f) new = old ≡ f ∷ new

abbrev pub Held : Option Chunk → Option CurrentDescriptor → Type 0
Held none current = Unit
Held (some f) none = ⊥
Held (some f) (some c) = Unit

-- The result of a call: the invariant holds on, the map is the same, and the first frame of the
-- queue is handed out if there is one, from what is then the current descriptor.
pub record Took (space : AddressSpace) (types : MemoryTypes) (whole : List MemoryDescriptor)
    (queue : List Chunk) (r : LegacyFrameAllocator × Option Chunk) : Type 0 where
  pub inv : Inv space types r.0
  pub same : r.0.original ≡ whole
  pub held : Held r.1 r.0.current_descriptor
  pub taken : Dequeues queue r.1 (remaining types r.0)

-- A descriptor that has just become the current one.
abbrev pub fresh : MemoryDescriptor → CurrentDescriptor
fresh d = record { descriptor = d; next_frame = first_frame d }

abbrev pub state :
    List MemoryDescriptor → List MemoryDescriptor → Option CurrentDescriptor → LegacyFrameAllocator
state o m c = record { original = o; memory_map = m; current_descriptor = c }

module _ (types : MemoryTypes) where
  pub pending-append :
      (xs ys : List MemoryDescriptor)
      → pending types (xs ++ ys) ≡ pending types xs ++ pending types ys
  unfolding pending
  pending-append [] ys = refl
  pending-append (x ∷ xs) ys = rw (pending-append xs ys) (
      sym (
        append_assoc (if is_allocatable types x then frames x else []) (pending types xs)
          (pending types ys)))

pub range_head : (a n m : ℕ) → 0 < n → m ≡ n - 1 → range a n ≡ a ∷ range (a + 1) m
range_head a zero m h e = absurd (omega arith)
range_head a (suc n) m h e = let e' : m ≡ n = omega arith in rw e'

pub range_none : (a n : ℕ) → n ≤ 0 → range a n ≡ []
range_none a zero h = refl
range_none a (suc n) h = absurd (omega arith)
