-- ===== src/Main.antt =====
-- uefi-bootloader/src/main.rs: the frame buffer that the firmware offers, and the end of the boot
-- services, of uefi-bootloader/src/context.rs, between the stages of `main`.
pub mod HandOver
pub mod Survives
mod Tests
use uefi_bootloader.Prelude.{ℕ, Option, none, some, List, Outcome, ◌>>=◌, ok, panic}
use uefi_bootloader.Api.{PixelFormat, FrameBuffer}
use uefi_bootloader.Memory.Address.{Address}
use uefi_bootloader.Memory.Chunk.{Chunk}
use uefi_bootloader.Arch.Machine.{Machine}
use uefi_bootloader.FrameAllocator as FrameAllocators
use uefi_bootloader.FrameAllocator.{MemoryDescriptor, MemoryTypes}
use uefi_bootloader.FrameAllocator.Source.{FrameAllocator, legacy, BootServices}
use uefi_bootloader.Api.{ElfSection}
use uefi_bootloader.Context.{RuntimeContext, page_table}
use uefi_bootloader.Context.Mappings.{set_up_mappings}
use uefi_bootloader.Context.Segment.{BootContext}
use uefi_bootloader.Context.Kernel.{RegularFile, Elf, FileType, load_kernel}

-- `gop::PixelFormat`, and the parts of the graphics protocol's mode and frame buffer that are read.
pub data GopPixelFormat : Type 0 where
  rgb bgr bitmask blt_only : GopPixelFormat

pub record Gop : Type 0 where
  pub pixel_format : GopPixelFormat
  pub width : ℕ
  pub height : ℕ
  pub stride : ℕ
  pub size : ℕ
  pub pointer : ℕ

unfoldable pub pixel_format_of : GopPixelFormat → Outcome PixelFormat
pixel_format_of GopPixelFormat.rgb = ok PixelFormat.rgb
pixel_format_of GopPixelFormat.bgr = ok PixelFormat.bgr
pixel_format_of bitmask = panic
pixel_format_of blt_only = panic

-- The handle of the protocol, and what opening it gives, may be missing.
unfoldable pub get_frame_buffer : Option (Option Gop) → Outcome (Option FrameBuffer)
unfolding pixel_format_of
get_frame_buffer none = ok none
get_frame_buffer (some none) = ok none
get_frame_buffer (some (some gop)) = pixel_format_of gop.pixel_format >>= λ format. ok (
    some (record {
      physical = gop.pointer;
      virt = 0;
      info = record {
        size = gop.size;
        width = gop.width;
        height = gop.height;
        pixel_format = format;
        bytes_per_pixel = 4;
        stride = gop.stride;
      };
    }))

module _ (machine : Machine) (services : BootServices) (types : MemoryTypes) where
  abbrev pub allocator : FrameAllocator
  allocator = legacy machine.physical_space types

  -- `exit_boot_services`, with the memory map that the firmware leaves.
  unfoldable pub exit_boot_services :
      (services.State → List MemoryDescriptor)
      → BootContext machine services
      → RuntimeContext machine allocator
  unfolding FrameAllocators.new
  exit_boot_services exit c = record {
    page_allocator = c.page_allocator;
    frame_allocator = FrameAllocators.new (exit c.firmware);
    mapper = c.mapper;
  }
