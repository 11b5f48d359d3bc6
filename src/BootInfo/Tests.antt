-- ===== src/BootInfo/Tests.antt =====
-- Runs of the layout of the boot information.
use uefi_bootloader.Prelude.{◌^◌, ◌≡◌, refl, none, arith, ok}
use uefi_bootloader.BootInfo.{Layouts, array, extend, offsets}
use uefi_bootloader.BootInfo.Laws.{Disjoint, offsets-Disjoint}

abbrev layouts : Layouts
layouts = record {
  boot_information = record { size = 136; align = 8 };
  memory_region = record { size = 24; align = 8 };
  module_info = record { size = 80; align = 8 };
  elf_section = record { size = 88; align = 16 };
}

-- The sections start at the next multiple of 16.
three_regions :
    offsets layouts 3 2 1
    ≡ ok (record {
      combined = record { size = 456; align = 16 };
      memory_regions_offset = 136;
      modules_offset = 208;
      elf_sections_offset = 368;
    })
unfolding offsets array extend
three_regions = refl

too_large : array (record { size = 24; align = 8 }) (2 ^ 60) ≡ none
unfolding array
too_large = refl

offsets-Disjoint_example : Disjoint layouts 3 2 1 (offsets layouts 3 2 1)
offsets-Disjoint_example = offsets-Disjoint layouts 3 2 1 (record {
  boot_information = record { pos = omega arith; small = omega arith };
  memory_region = record { pos = omega arith; small = omega arith };
  module_info = record { pos = omega arith; small = omega arith };
  elf_section = record { pos = omega arith; small = omega arith };
  small = omega arith;
})
