-- ===== src/FrameAllocator.antt =====
-- The frame allocator that works after boot services have ended, `LegacyFrameAllocator` of
-- uefi-bootloader/src/memory.rs, and the memory map that it leaves to the kernel.
pub mod Queue
pub mod Current
pub mod Allocate
pub mod Regions
pub mod Cover
pub mod Buffer
pub mod Report
pub mod Accounts
pub mod Handover
pub mod Source
pub mod Draw
mod Tests
use uefi_bootloader.Prelude.{
  ℕ, ◌+◌, ◌<◌, Bool, true, false, not, ◌||◌, Option, none, some, List, [], ◌∷◌, ltb, leb, ◌==◌,
  if◌then◌else◌, length, set, take, ◌+w◌, ◌-w◌, ◌*w◌, Outcome, ◌>>=◌, expect, ok, panic,
}
use uefi_bootloader.Memory.Address
use uefi_bootloader.Memory.Address.{AddressSpace, Address, page_size}
use uefi_bootloader.Memory.Chunk
use uefi_bootloader.Memory.Chunk.{Chunk, containing_address}
use uefi_bootloader.Api.{
  MemoryRegionKind, usable, bootloader, unknown_uefi, is_usable, MemoryRegion,
}

-- The firmware's memory types by number, of the crate `uefi`. The numbers below `0x7000_0000` are
-- those that the UEFI specification itself assigns.
pub record MemoryTypes : Type 0 where
  pub conventional : ℕ
  pub loader_code : ℕ
  pub loader_data : ℕ
  pub boot_services_code : ℕ
  pub boot_services_data : ℕ
  pub conventional-lt : conventional < 0x7000_0000
  pub loader_code-lt : loader_code < 0x7000_0000
  pub loader_data-lt : loader_data < 0x7000_0000
  pub boot_services_code-lt : boot_services_code < 0x7000_0000
  pub boot_services_data-lt : boot_services_data < 0x7000_0000

-- A descriptor of the firmware's memory map: the fields that the program reads.
pub record MemoryDescriptor : Type 0 where
  pub ty : ℕ
  pub phys_start : ℕ
  pub page_count : ℕ

-- `KERNEL_MEMORY`
abbrev pub kernel_memory : ℕ
kernel_memory = 0xffff_ffff

pub record CurrentDescriptor : Type 0 where
  pub descriptor : MemoryDescriptor
  pub next_frame : Chunk

-- The two iterators are the descriptors that they have left.
pub record LegacyFrameAllocator : Type 0 where
  pub original : List MemoryDescriptor
  pub memory_map : List MemoryDescriptor
  pub current_descriptor : Option CurrentDescriptor

unfoldable pub new : List MemoryDescriptor → LegacyFrameAllocator
new memory_map = record {
  original = memory_map;
  memory_map = memory_map;
  current_descriptor = none;
}

unfoldable pub len : LegacyFrameAllocator → ℕ
len s = length s.original + 2

abbrev pub byte_len : MemoryDescriptor → ℕ
byte_len d = d.page_count *w page_size

module _ (types : MemoryTypes) where
  open types use {conventional, loader_code, loader_data, boot_services_code, boot_services_data}

  unfoldable pub descriptor_kind : MemoryDescriptor → MemoryRegionKind
  descriptor_kind d =
      if d.ty == conventional
        || d.ty == loader_code
        || d.ty == loader_data
        || d.ty == boot_services_code
        || d.ty == boot_services_data
      then usable
      else unknown_uefi d.ty

-- `if let Some(frame) = … { return Some(frame); }`, and what follows it.
abbrev pub or_else :
    LegacyFrameAllocator × Option Chunk
    → (LegacyFrameAllocator → LegacyFrameAllocator × Option Chunk)
    → LegacyFrameAllocator × Option Chunk
or_else (s, some frame) rest = (s, some frame)
or_else (s, none) rest = rest s

module _ (space : AddressSpace) where
  unfoldable pub allocate_frame_from_current :
      LegacyFrameAllocator → LegacyFrameAllocator × Option Chunk
  unfolding Address.new_canonical Address.add Address.sub containing_address Chunk.add
  allocate_frame_from_current s = elim s.current_descriptor [
    | none ↦ (s, none)
    | some c ↦
        let start = Address.new_canonical space c.descriptor.phys_start in
        let end = Address.add space start (byte_len c.descriptor) in
        let end_frame = containing_address (Address.sub space end 1) in
        let next = record c { next_frame = Chunk.add c.next_frame 1 } in
        if leb c.next_frame end_frame
        then (record s { current_descriptor = some next }, some c.next_frame)
        else (s, none)
  ]

  module _ (types : MemoryTypes) where
    -- The `while` loop, on the descriptors that the iterator has left.
    pub next_descriptor :
        List MemoryDescriptor → LegacyFrameAllocator → LegacyFrameAllocator × Option Chunk
    unfolding descriptor_kind Address.new_canonical containing_address
    next_descriptor [] s = (record s { memory_map = [] }, none)
    next_descriptor (d ∷ rest) s =
        let skip = next_descriptor rest s in
        let start = containing_address (Address.new_canonical space d.phys_start) in
        let current : CurrentDescriptor = record { descriptor = d; next_frame = start } in
        let tried =
          allocate_frame_from_current
            (record s { memory_map = rest; current_descriptor = some current }) in
        if not (is_usable (descriptor_kind types d)) || ltb d.phys_start 0x1_0000
        then skip
        else or_else tried (λ s'. next_descriptor rest s')

    unfoldable pub allocate_frame : LegacyFrameAllocator → LegacyFrameAllocator × Option Chunk
    unfolding allocate_frame_from_current next_descriptor
    allocate_frame s =
        or_else (allocate_frame_from_current s) (λ s'. next_descriptor s'.memory_map s')

-- The loop of `construct_memory_map`: the caller's slice, whose items are `none` until they are
-- written, the next index, and whether the descriptor in use has been passed.
pub record MapState : Type 0 where
  pub buffer : List (Option MemoryRegion)
  pub index : ℕ
  pub iterated_through_used_descriptors : Bool

-- `memory_map[index].write(region); index += 1;`
unfoldable pub write : MapState → MemoryRegion → Outcome MapState
write s region =
    if ltb s.index (length s.buffer)
    then ok (record s { buffer = set s.buffer s.index (some region); index = s.index + 1 })
    else panic

module _ (space : AddressSpace) where
  -- The descriptor in use: what was handed out of it, and the rest if there is any.
  unfoldable pub map_current_descriptor :
      CurrentDescriptor → MemoryDescriptor → MapState → Outcome MapState
  map_current_descriptor current d s = do
    let used_len = Chunk.start_address space current.next_frame -w d.phys_start
    let remaining_len = byte_len d -w used_len
    let rest : MemoryRegion = record {
      start = d.phys_start +w used_len;
      len = remaining_len;
      kind = usable;
    }
    s1 ← write s (record { start = d.phys_start; len = used_len; kind = bootloader })
    s2 ← (if ltb 0 remaining_len then write s1 rest else ok s1)
    ok (record s2 { iterated_through_used_descriptors = true })

module _ (space : AddressSpace) (types : MemoryTypes) where
  -- The body of the loop.
  unfoldable pub map_descriptor : CurrentDescriptor → MemoryDescriptor → MapState → Outcome MapState
  map_descriptor current d s =
      if s.iterated_through_used_descriptors
        || ltb d.phys_start 0x1_0000
        || not (is_usable (descriptor_kind types d))
      then write s
          (record { start = d.phys_start; len = byte_len d; kind = descriptor_kind types d })
      else if d.phys_start == current.descriptor.phys_start
      then map_current_descriptor space current d s
      else write s (record { start = d.phys_start; len = byte_len d; kind = bootloader })

  unfoldable pub map_descriptors :
      CurrentDescriptor → List MemoryDescriptor → MapState → Outcome MapState
  map_descriptors current [] s = ok s
  map_descriptors current (d ∷ rest) s = map_descriptor current d s >>= map_descriptors current rest

  -- The slice that it returns, `memory_map[..index]`.
  unfoldable pub construct_memory_map :
      LegacyFrameAllocator → List (Option MemoryRegion) → Outcome (List (Option MemoryRegion))
  construct_memory_map s buffer = do
    current ← expect s.current_descriptor
    let start : MapState = record {
      buffer = buffer;
      index = 0;
      iterated_through_used_descriptors = false;
    }
    end ← map_descriptors current s.original start
    ok (take end.index end.buffer)
