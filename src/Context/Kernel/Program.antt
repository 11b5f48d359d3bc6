-- ===== src/Context/Kernel/Program.antt =====
-- The loop of `load` of uefi-bootloader/src/kernel.rs over the program headers: what it needs of the
-- file and of the firmware, and what it promises.
use uefi_bootloader.Prelude.{
  ℕ, ◌+◌, ◌-◌, ◌*◌, ◌/◌, ◌^◌, ◌≤◌, ◌<◌, ◌≡◌, ◌≢◌, ◌⊎◌, true, some, List, [], ◌∷◌, length, Outcome,
  ok,
}
use uefi_bootloader.Memory.Address.{Address}
use uefi_bootloader.Memory.Chunk.{Chunk}
use uefi_bootloader.Arch.Machine.{Machine, IsMachine, PageView, IsPageMap}
use uefi_bootloader.FrameAllocator.{MemoryTypes}
use uefi_bootloader.FrameAllocator.Source.{IsQueue, BootServices, uefi}
use uefi_bootloader.PageAllocator.{ProgramHeader}
use uefi_bootloader.PageAllocator.Slots.{is_used, slot_of}
use uefi_bootloader.Context.Segment.{Memory, Slice, BootContext, segment_flags, map_segment}
use uefi_bootloader.Context.Segment.Pages.{offset_of}
use uefi_bootloader.Context.Segment.Loadable.{IsLoadable}
use uefi_bootloader.Context.Kernel.{Elf, RegularFile, Loader}
use uefi_bootloader.Context.Kernel.Media.{IsFile, bytes_at}
use uefi_bootloader.Context.Kernel.Load.{HoldsSegment}

-- A segment and the slice that it is loaded to.
pub record Placed : Type 0 where
  pub segment : ProgramHeader
  pub pointer : Address

-- Every segment of a list.
abbrev pub Every : (Placed → Type 0) → List Placed → Type 0
Every P [] = Unit
Every P (p ∷ ps) = P p × Every P ps

-- The page of a segment's byte.
abbrev pub page_of : ProgramHeader → ℕ → Chunk
page_of segment k = (segment.p_vaddr + k) / 4096

abbrev pub IsOutside : Address → Placed → Type 0
IsOutside x p = (x < p.pointer) ⊎ (p.pointer + offset_of p.segment + p.segment.p_memsz ≤ x)

-- Two segments that share no page and no byte of their slices.
pub record IsApart (a b : Placed) : Type 0 where
  pub pages :
      (j k : ℕ)
      → j < a.segment.p_memsz
      → k < b.segment.p_memsz
      → page_of b.segment k ≢ page_of a.segment j
  pub slices : (j : ℕ) → j < a.segment.p_memsz → IsOutside (a.pointer + offset_of a.segment + j) b

-- A file with its program headers, one after the other.
pub record HasProgramHeaders (elf : Elf) (contents : List ℕ) (offset n : ℕ)
    (headers : ℕ → ProgramHeader) : Type 0 where
  pub small : length contents < 2 ^ 64 - 1
  pub inside : offset + n * elf.size_of_program_header ≤ length contents
  pub parsed :
      (i : ℕ)
      → i < n
      → elf.program_header
          (bytes_at contents (offset + i * elf.size_of_program_header) elf.size_of_program_header)
        ≡ some (headers i)

module _ (machine : Machine) (is_machine : IsMachine machine) (services : BootServices)
    (q : IsQueue (uefi machine.physical_space services)) (v : PageView machine)
    (law : IsPageMap machine (uefi machine.physical_space services) q v) where
  open v use {entry_of, leaf, InReach}

  -- The turns of the loop: a header is skipped, or its segment is loadable when its turn comes, lies in
  -- the file, and is apart from those that follow. The rest follows for all bytes
  -- in memory, and ends in a context that is ready.
  pub data Turns (contents : List ℕ) (Ready : BootContext machine services → Type 0)
      : List ProgramHeader → BootContext machine services → List Placed → Type 0 where
    done : {c : BootContext machine services} → Ready c → Turns contents Ready [] c []
    skipped :
        {segment : ProgramHeader} {rest : List ProgramHeader} {c : BootContext machine services}
        {ps : List Placed}
        → (segment.p_memsz ≡ 0) ⊎ (segment.p_type ≢ 1)
        → Turns contents Ready rest c ps
        → Turns contents Ready (segment ∷ rest) c ps
    loaded :
        {segment : ProgramHeader} {rest : List ProgramHeader} {c : BootContext machine services}
        {ps : List Placed} {pointer : Address} {firmware : services.State}
        → segment.p_type ≡ 1
        → IsLoadable machine is_machine services q v law segment c pointer firmware
        → segment.p_filesz ≤ segment.p_memsz
        → segment.p_offset + segment.p_filesz ≤ length contents
        → Every (IsApart (record { segment = segment; pointer = pointer })) ps
        → ((c' : BootContext machine services) (slice : Slice) (memory : Memory)
            → map_segment machine services segment c ≡ ok (c', slice)
            → Turns contents Ready rest (record c' { memory = memory }) ps)
        → Turns contents Ready
            (segment ∷ rest)
            c
            (record { segment = segment; pointer = pointer } ∷ ps)

  -- A segment in its place: its slice holds its bytes, its pages are mapped to the slice with its flags,
  -- and its slots are taken.
  pub record InPlace (contents : List ℕ) (c : BootContext machine services) (p : Placed)
      : Type 0 where
    pub fits : p.segment.p_filesz ≤ p.segment.p_memsz
    pub holds : HoldsSegment contents p.segment (p.pointer + offset_of p.segment) c.memory
    pub reach : (k : ℕ) → k < p.segment.p_memsz → InReach (page_of p.segment k)
    pub bytes :
        (k : ℕ)
        → k < p.segment.p_memsz
        → entry_of c.mapper (page_of p.segment k)
          ≡ leaf ((p.pointer + offset_of p.segment + k) / 4096) (segment_flags machine p.segment)
    pub marked :
        (k : ℕ)
        → k < p.segment.p_memsz
        → is_used c.page_allocator (slot_of (p.segment.p_vaddr + k)) ≡ true

  module _ (media : RegularFile) (is_file : IsFile media) (elf : Elf) (types : MemoryTypes) where
    open is_file use {contents}

    -- The loop returned, every segment is in its place, and what is outside of all is as before.
    pub record LoadsAll (bytes : List ℕ) (Ready : BootContext machine services → Type 0)
        (ps : List Placed) (c : BootContext machine services)
        (r : Outcome (Loader media elf machine services types)) : Type 0 where
      pub after : Loader media elf machine services types
      pub returns : r ≡ ok after
      pub same_file : contents after.file ≡ bytes
      pub ready : Ready after.context
      pub in_place : Every (InPlace bytes after.context) ps
      pub elsewhere : (x : Address) → Every (IsOutside x) ps → after.context.memory x ≡ c.memory x
      pub others :
          (page : Chunk)
          → InReach page
          → Every (λ p. (k : ℕ) → k < p.segment.p_memsz → page_of p.segment k ≢ page) ps
          → entry_of after.context.mapper page ≡ entry_of c.mapper page
      pub still_used :
          (i : ℕ)
          → is_used c.page_allocator i ≡ true
          → is_used after.context.page_allocator i ≡ true
