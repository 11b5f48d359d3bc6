-- ===== src/Api/BootInformation.antt =====
-- `BootInformation` of uefi-bootloader-api/src/lib.rs.
use uefi_bootloader.Prelude.{ℕ, Option}
use uefi_bootloader.Api.{FrameBuffer}
use uefi_bootloader.Api.MemoryRegions.{MemoryRegions}
use uefi_bootloader.Api.Modules.{Modules}
use uefi_bootloader.Api.ElfSections.{ElfSections}

pub record BootInformation : Type 0 where
  pub size : ℕ
  pub frame_buffer : Option FrameBuffer
  pub rsdp_address : Option ℕ
  pub memory_regions : MemoryRegions
  pub modules : Modules
  pub elf_sections : ElfSections
