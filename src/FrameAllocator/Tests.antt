-- ===== src/FrameAllocator/Tests.antt =====
-- A map of four descriptors: low memory, two usable ones with a firmware one between.
use uefi_bootloader.Prelude.{
  ℕ, ◌+◌, ◌*◌, ◌%◌, ◌^◌, ◌<◌, ◌≡◌, refl, ◌≢◌, Option, none, some, List, [], ◌∷◌, arith, ok, panic,
}
use uefi_bootloader.Arch.BitRanges.{bit_ranges}
use uefi_bootloader.Arch.X86.{canonicalize_physical_address}
use uefi_bootloader.Arch.X86.Canonical.{physical_space}
use uefi_bootloader.Memory.Address.{AddressSpace}
use uefi_bootloader.Memory.Chunk.{Chunk, start_address}
use uefi_bootloader.FrameAllocator
use uefi_bootloader.FrameAllocator.{
  MemoryTypes, MemoryDescriptor, LegacyFrameAllocator, len, allocate_frame, construct_memory_map,
  map_descriptors, map_descriptor, write, descriptor_kind, map_current_descriptor,
}
use uefi_bootloader.Api.{usable, bootloader, unknown_uefi, MemoryRegion}
use uefi_bootloader.FrameAllocator.Queue.{Fits, remaining, Took}
use uefi_bootloader.FrameAllocator.Allocate.{allocate_frame-Took}
use uefi_bootloader.FrameAllocator.Accounts.{
  IsFirmwareMap, Allocated, made, took, Accounts, Allocated-Accounts,
}
use uefi_bootloader.FrameAllocator.Handover.{Hands, construct_memory_map-Hands}

-- The numbers of the UEFI specification.
abbrev types : MemoryTypes
types = record {
  conventional = 7;
  loader_code = 1;
  loader_data = 2;
  boot_services_code = 3;
  boot_services_data = 4;
  conventional-lt = omega arith;
  loader_code-lt = omega arith;
  loader_data-lt = omega arith;
  boot_services_code-lt = omega arith;
  boot_services_data-lt = omega arith;
}

abbrev space : AddressSpace
space = physical_space bit_ranges

abbrev descriptor : ℕ → ℕ → ℕ → MemoryDescriptor
descriptor ty start pages = record { ty = ty; phys_start = start; page_count = pages }

abbrev firmware_map : List MemoryDescriptor
firmware_map =
    descriptor 7 0x1000 8
    ∷ descriptor 7 0x10_0000 1
    ∷ descriptor 0 0x20_0000 4
    ∷ descriptor 4 0x30_0000 3
    ∷ []

whole_pages :
    (ty start pages : ℕ)
    → start % 4096 ≡ 0
    → start + pages * 4096 < 2 ^ 52
    → Fits space (descriptor ty start pages)
unfolding physical_space
whole_pages ty start pages aligned below = record { aligned = aligned; below = below }

firmware_map-IsFirmwareMap : IsFirmwareMap space firmware_map
firmware_map-IsFirmwareMap = record {
  fits = (
    whole_pages 7 0x1000 8 refl (omega arith),
    (
      whole_pages 7 0x10_0000 1 refl (omega arith),
      (
        whole_pages 0 0x20_0000 4 refl (omega arith),
        (whole_pages 4 0x30_0000 3 refl (omega arith), tt),
      ),
    ),
  );
  apart = (
    (λ e. omega arith, (λ e. omega arith, (λ e. omega arith, tt))),
    ((λ e. omega arith, (λ e. omega arith, tt)), ((λ e. omega arith, tt), (tt, tt))),
  );
}

abbrev start : LegacyFrameAllocator
start = record { original = firmware_map; memory_map = firmware_map; current_descriptor = none }

-- After the first frame and after the second.
abbrev once : LegacyFrameAllocator
once = record {
  original = firmware_map;
  memory_map = descriptor 0 0x20_0000 4 ∷ descriptor 4 0x30_0000 3 ∷ [];
  current_descriptor = some (record { descriptor = descriptor 7 0x10_0000 1; next_frame = 0x101 });
}

abbrev twice : LegacyFrameAllocator
twice = record {
  original = firmware_map;
  memory_map = [];
  current_descriptor = some (record { descriptor = descriptor 4 0x30_0000 3; next_frame = 0x301 });
}

first_run : allocate_frame space types start ≡ (once, some 0x100)
unfolding allocate_frame physical_space canonicalize_physical_address
first_run = refl

second_run : allocate_frame space types once ≡ (twice, some 0x300)
unfolding allocate_frame physical_space canonicalize_physical_address
second_run = refl

abbrev handed_out : List Chunk
handed_out = 0x100 ∷ 0x300 ∷ []

two_taken : Allocated space types firmware_map twice handed_out
unfolding FrameAllocator.new
two_taken = took (took made first_run) second_run

abbrev room : List (Option MemoryRegion)
room = none ∷ none ∷ none ∷ none ∷ none ∷ none ∷ none ∷ []

-- The current descriptor is split.
handed :
    construct_memory_map space types twice room
    ≡ ok (
        some (record { start = 0x1000; len = 0x8000; kind = usable })
        ∷ some (record { start = 0x10_0000; len = 0x1000; kind = bootloader })
        ∷ some (record { start = 0x20_0000; len = 0x4000; kind = unknown_uefi 0 })
        ∷ some (record { start = 0x30_0000; len = 0x1000; kind = bootloader })
        ∷ some (record { start = 0x30_1000; len = 0x2000; kind = usable })
        ∷ [])
unfolding construct_memory_map physical_space map_descriptors map_descriptor write descriptor_kind
    map_current_descriptor start_address canonicalize_physical_address
handed = refl

Allocated-Accounts_example : Accounts space types firmware_map twice handed_out
Allocated-Accounts_example = Allocated-Accounts space types firmware_map-IsFirmwareMap two_taken

allocate_frame-Took_example :
    Took space types firmware_map (remaining types twice) (allocate_frame space types twice)
allocate_frame-Took_example =
    allocate_frame-Took space types twice
      (Accounts.inv (Allocated-Accounts space types firmware_map-IsFirmwareMap two_taken))

construct_memory_map-Hands_example :
    (handed_out ≢ []
      → Hands space types firmware_map handed_out (construct_memory_map space types twice room))
    × (handed_out ≡ [] → construct_memory_map space types twice room ≡ panic)
construct_memory_map-Hands_example =
    construct_memory_map-Hands space types firmware_map twice handed_out room
      firmware_map-IsFirmwareMap two_taken (unfold len in omega arith)
