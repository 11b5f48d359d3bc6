-- ===== src/Api.antt =====
-- uefi-bootloader-api/src/lib.rs: the data handed to the kernel.
pub mod Slices
pub mod MemoryRegions
pub mod Modules
pub mod ElfSections
pub mod BootInformation
pub mod Names
pub mod Laws
use uefi_bootloader.Prelude.{ℕ, Bool, true, false, List}

pub data MemoryRegionKind : Type 0 where
  usable : MemoryRegionKind
  bootloader : MemoryRegionKind
  unknown_uefi : ℕ → MemoryRegionKind

-- `kind == MemoryRegionKind::Usable`
abbrev pub is_usable : MemoryRegionKind → Bool
is_usable usable = true
is_usable bootloader = false
is_usable (unknown_uefi tag) = false

pub record MemoryRegion : Type 0 where
  pub start : ℕ
  pub len : ℕ
  pub kind : MemoryRegionKind

-- `MemoryRegion::empty`
abbrev pub empty : MemoryRegion
empty = record { start = 0; len = 0; kind = bootloader }

pub data PixelFormat : Type 0 where
  rgb bgr : PixelFormat

pub record FrameBufferInfo : Type 0 where
  pub size : ℕ
  pub width : ℕ
  pub height : ℕ
  pub pixel_format : PixelFormat
  pub bytes_per_pixel : ℕ
  pub stride : ℕ

pub record FrameBuffer : Type 0 where
  pub physical : ℕ
  pub virt : ℕ
  pub info : FrameBufferInfo

-- The name's 64 bytes, padded with zeros.
pub record ElfSection : Type 0 where
  pub name : List ℕ
  pub start : ℕ
  pub size : ℕ
  pub flags : ℕ
