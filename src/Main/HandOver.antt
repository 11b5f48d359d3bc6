-- ===== src/Main/HandOver.antt =====
-- `BootContext::new` of uefi-bootloader/src/context.rs, and `main` of uefi-bootloader/src/main.rs from the
-- end of the boot services on.
use uefi_bootloader.Prelude.{ℕ, Option, List, Outcome, ◌>>=◌, ok}
use uefi_bootloader.Api.{ElfSection, FrameBuffer}
use uefi_bootloader.Memory.Address.{Address}
use uefi_bootloader.Memory.Chunk.{Chunk}
use uefi_bootloader.Arch.Machine.{Machine}
use uefi_bootloader.FrameAllocator.{MemoryDescriptor, MemoryTypes}
use uefi_bootloader.FrameAllocator.Source.{BootServices, uefi}
use uefi_bootloader.PageAllocator as PageAllocators
use uefi_bootloader.Modules.{Module}
use uefi_bootloader.Context.{page_table}
use uefi_bootloader.Context.Segment.{Memory, BootContext}
use uefi_bootloader.Context.Mappings.{set_up_mappings}
use uefi_bootloader.BootInfo.{Layouts}
use uefi_bootloader.BootInfo.Create.{Created, create_boot_info}
use uefi_bootloader.Main.{allocator, exit_boot_services}

-- What is needed to switch to the kernel; the boot information is where `create_boot_info` put it.
pub record KernelContext (machine : Machine) : Type 0 where
  pub page_table_frame : Chunk
  pub stack_top : Address
  pub entry_point : Address
  pub boot_info : Created machine

module _ (machine : Machine) (services : BootServices) where
  -- `BootContext::new`, with the tables and the bytes that are in memory.
  unfoldable pub new :
      machine.Tables → Memory → services.State → Outcome (BootContext machine services)
  unfolding PageAllocators.new
  new tables memory firmware = do
    r ← machine.new (uefi machine.physical_space services) tables firmware
    ok (record {
      firmware = r.1;
      memory = memory;
      page_allocator = PageAllocators.new;
      mapper = r.0;
    })

  -- The second half of `main`, from what the first half found and loaded to the jump.
  unfoldable pub hand_over :
      MemoryTypes
      → Layouts
      → (services.State → List MemoryDescriptor)
      → machine.Register
      → ℕ
      → BootContext machine services
      → Option FrameBuffer
      → Option ℕ
      → List Module
      → List ElfSection
      → Address
      → Outcome (KernelContext machine)
  unfolding exit_boot_services set_up_mappings page_table create_boot_info
  hand_over types t exit register jump_to_kernel c frame_buffer rsdp_address modules elf_sections
        entry_point =
      do
        let runtime = exit_boot_services machine services types exit c
        set_up ←
            set_up_mappings machine (allocator machine services types) jump_to_kernel runtime
              frame_buffer
        let page_table_frame = page_table machine (allocator machine services types) set_up.0
        boot_info ←
            create_boot_info machine types t register set_up.0 set_up.1 rsdp_address modules
              elf_sections
        ok (record {
          page_table_frame = page_table_frame;
          stack_top = set_up.2;
          entry_point = entry_point;
          boot_info = boot_info;
        })
