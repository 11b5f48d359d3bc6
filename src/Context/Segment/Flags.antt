-- ===== src/Context/Segment/Flags.antt =====
-- The flags that `map_segment` of uefi-bootloader/src/context.rs gives the pages of a segment on
-- aarch64.
use uefi_bootloader.Prelude.{
  ◌/◌, ◌%◌, ◌^◌, bit_and, ◌≡◌, refl, inl, inr, ◌==◌, if◌then◌else◌, Bool-cases,
}
use uefi_bootloader.Arch.{BitField}
use uefi_bootloader.Arch.Aarch64.Flags as Flags
use uefi_bootloader.Arch.Aarch64.Flags.{present, writable, no_execute}
use uefi_bootloader.Arch.Aarch64.Machine.{aarch64}
use uefi_bootloader.PageAllocator.{ProgramHeader}
use uefi_bootloader.Context.Segment.{segment_flags}

-- On aarch64, the flags of every segment's pages say that they are present and not read-only, whether
-- the segment is writable or not, and that they are not executable exactly if the lowest bit of its
-- flags is clear.
pub segment_flags-writable :
    (bits : BitField) (segment : ProgramHeader)
    → (segment_flags (aarch64 bits) segment % 2 ≡ 1)
      × (segment_flags (aarch64 bits) segment / 2 ^ 7 % 2 ≡ 0)
      × (segment_flags (aarch64 bits) segment / 2 ^ 53 % 4
          ≡ (if bit_and segment.p_flags 0x1 == 0 then 3 else 0))
unfolding segment_flags Flags.new present writable no_execute
segment_flags-writable bits segment = elim (Bool-cases (bit_and segment.p_flags 0x1 == 0)) [
  | inl e ↦ elim (Bool-cases (bit_and segment.p_flags 0x2 == 0)) [
    | inl f ↦ rw (e, f) (refl, refl, refl)
    | inr f ↦ rw (e, f) (refl, refl, refl)
  ]
  | inr e ↦ elim (Bool-cases (bit_and segment.p_flags 0x2 == 0)) [
    | inl f ↦ rw (e, f) (refl, refl, refl)
    | inr f ↦ rw (e, f) (refl, refl, refl)
  ]
]
