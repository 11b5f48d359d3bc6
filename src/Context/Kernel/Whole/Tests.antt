-- ===== src/Context/Kernel/Whole/Tests.antt =====
-- A run of the kernel's loading: a file with two segments to load and a header to skip.
use uefi_bootloader.Prelude.{
  ℕ, zero, suc, ◌+◌, ◌-◌, ◌*◌, ◌/◌, ◌<◌, ◌≡◌, refl, sym, ap, ◌∙◌, inl, inr, some, List, [], ◌∷◌,
  map, arith, ◌==◌, if◌then◌else◌, length, get_or, range, Outcome, ok, panic,
}
use mathlib.Core.Path.{subst}
use uefi_bootloader.PageAllocator.{ProgramHeader}
use uefi_bootloader.Context.Samples.{
  flat, flat-IsMachine, flat_view, few_pages, few_pages-IsQueue, segment, before_loading,
  segment-IsLoadable, low_half,
}
use uefi_bootloader.Context.Segment.{Memory, Slice, BootContext, map_segment}
use uefi_bootloader.Context.Segment.Loadable.{IsLoadable}
use uefi_bootloader.Context.Kernel.{SectionHeader, Elf, load}
use uefi_bootloader.Context.Kernel.Program.{Placed, IsApart, Turns, done, skipped, loaded}
use uefi_bootloader.Context.Kernel.Whole.{KernelFile, HasRoom, LoadsKernel, load-LoadsKernel}
use uefi_bootloader.Context.Kernel.Tests.{law, memory_file, memory_file-IsFile, types, kernel_bytes}
use uefi_bootloader.Modules.{calculate_pages}
use uefi_bootloader.PageAllocator as PageAllocators
use uefi_bootloader.PageAllocator.{use_entries, top_index}
use uefi_bootloader.Memory.Chunk.{containing_address}
use uefi_bootloader.Memory.Address.{add, sub}
use uefi_bootloader.Arch.Aarch64.Canonical.{virtual_space, physical_space}
use uefi_bootloader.Arch.Aarch64.{canonicalize_virtual_address, canonicalize_physical_address}
use uefi_bootloader.Context.Segment.{segment_pages}

-- A second segment, of two bytes in one page.
abbrev second : ProgramHeader
second = record {
  p_type = 1;
  p_flags = 6;
  p_offset = 0x50;
  p_vaddr = 0x50_0000;
  p_paddr = 0x50_0000;
  p_filesz = 2;
  p_memsz = 0x1000;
}

-- A header of no type that is loaded.
abbrev note : ProgramHeader
note = record segment { p_type = 4 }

abbrev programs : ℕ → ProgramHeader
programs i = if i == 0 then segment else (if i == 1 then note else second)

-- Headers of eight bytes from the byte 8 on, and section headers of four bytes from the byte 40 on.
abbrev elf : Elf
elf = record {
  size_of_header = 8;
  size_of_program_header = 8;
  size_of_section_header = 4;
  header = λ b. record {
    e_entry = 0x40_0200;
    e_phoff = 8;
    e_shoff = 40;
    e_phnum = 3;
    e_shnum = 3;
    e_shstrndx = 1;
  };
  program_header = λ b. some (programs (get_or b 0 0 / 8 - 1));
  section_header = λ b. some (record {
    sh_name = get_or b 0 0;
    sh_flags = 0;
    sh_addr = get_or b 1 0;
    sh_offset = get_or b 3 0;
    sh_size = get_or b 2 0;
  });
}

abbrev section : ℕ → SectionHeader
section i = record {
  sh_name = 40 + i * 4;
  sh_flags = 0;
  sh_addr = 41 + i * 4;
  sh_offset = 43 + i * 4;
  sh_size = 42 + i * 4;
}

-- A statement about the numbers below three.
below_three {ℓ} : (P : ℕ → Type ℓ) → P 0 → P 1 → P 2 → (i : ℕ) → i < 3 → P i
below_three P a b c zero h = a
below_three P a b c (suc zero) h = b
below_three P a b c (suc (suc zero)) h = c
below_three P a b c (suc (suc (suc i))) h = absurd (omega (arith, h))

abbrev kernel : KernelFile elf kernel_bytes
kernel = record {
  header = elf.header [];
  programs = programs;
  sections = section;
  whole = omega arith;
  starts = refl;
  has_programs = record {
    small = omega arith;
    inside = omega arith;
    parsed = below_three _ refl refl refl;
  };
  has_sections = record {
    small = omega arith;
    inside = omega arith;
    parsed = below_three _ refl refl refl;
    name_table = omega arith;
    names = λ i h. omega (arith, h);
  };
}

abbrev placed : List Placed
placed =
    record { segment = segment; pointer = 500 * 4096 }
    ∷ record { segment = second; pointer = 503 * 4096 }
    ∷ []

-- The context that a segment leaves, with other bytes in memory.
abbrev context_of : Outcome (BootContext flat few_pages × Slice) → BootContext flat few_pages
context_of (ok r) = r.0
context_of panic = before_loading

abbrev after_first : Memory → BootContext flat few_pages
after_first memory = record (context_of (map_segment flat few_pages segment before_loading)) {
  memory = memory;
}

first_firmware : (memory : Memory) → (after_first memory).firmware ≡ 503
unfolding map_segment use_entries top_index containing_address sub virtual_space
    canonicalize_virtual_address add PageAllocators.new segment_pages physical_space
    canonicalize_physical_address
first_firmware memory = refl

first_size : (memory : Memory) → length (after_first memory).page_allocator.entries ≡ 512
unfolding map_segment use_entries top_index containing_address sub virtual_space
    canonicalize_virtual_address add PageAllocators.new segment_pages physical_space
    canonicalize_physical_address
first_size memory = refl

second_firmware :
    (memory : Memory)
    → (context_of (map_segment flat few_pages second (after_first memory))).firmware ≡ 504
unfolding map_segment use_entries top_index containing_address sub virtual_space
    canonicalize_virtual_address add PageAllocators.new segment_pages physical_space
    canonicalize_physical_address
second_firmware memory = refl

second-IsLoadable :
    (c : BootContext flat few_pages)
    → c.firmware ≡ 503
    → length c.page_allocator.entries ≡ 512
    → IsLoadable flat flat-IsMachine few_pages few_pages-IsQueue flat_view law second c
        (503 * 4096)
        504
second-IsLoadable c f size = record {
  not_empty = omega arith;
  half = low_half 0x50_0000 0x1000 (omega arith);
  reach = λ i lo hi. tt;
  opens = λ i lo hi. tt;
  size = size;
  allocated = rw f refl;
  aligned = refl;
  below = omega arith;
  valid = omega arith;
  enough = omega arith;
}

apart :
    IsApart
      (record { segment = segment; pointer = 500 * 4096 })
      (record { segment = second; pointer = 503 * 4096 })
apart = record {
  pages = λ j k lt lt' e. omega (arith, lt, lt', e);
  slices = λ j lt. inl (omega (arith, lt));
}

room :
    (c : BootContext flat few_pages)
    → c.firmware ≡ 504
    → HasRoom flat flat-IsMachine few_pages few_pages-IsQueue flat_view law memory_file
        memory_file-IsFile elf types kernel_bytes kernel placed c
unfolding calculate_pages
room c f = record {
  firmware = 505;
  pointer = 504 * 4096;
  allocated = rw f refl;
  apart = (λ k lt. inl (omega (arith, lt)), (λ k lt. inl (omega (arith, lt)), tt));
}

turns :
    Turns flat flat-IsMachine few_pages few_pages-IsQueue flat_view law kernel_bytes
      (HasRoom flat flat-IsMachine few_pages few_pages-IsQueue flat_view law memory_file
        memory_file-IsFile elf types kernel_bytes kernel placed)
      (map programs (range 0 3))
      before_loading
      placed
turns =
    loaded refl segment-IsLoadable (omega arith) (omega arith) (apart, tt)
      (λ c slice memory e.
        subst
          (λ c.
            Turns flat flat-IsMachine few_pages few_pages-IsQueue flat_view law kernel_bytes
              (HasRoom flat flat-IsMachine few_pages few_pages-IsQueue flat_view law memory_file
                memory_file-IsFile elf types kernel_bytes kernel placed)
              (note ∷ second ∷ []) (record c { memory = memory })
              (record { segment = second; pointer = 503 * 4096 } ∷ []))
          (ap context_of e)
          (skipped (inr (λ e. omega (arith, e))) (
            loaded refl
              (second-IsLoadable (after_first memory) (first_firmware memory) (first_size memory))
              (omega arith) (omega arith) tt
              (λ c' slice' memory' e'. done (
                room (record c' { memory = memory' })
                  (ap (λ r. (context_of r).firmware) (sym e') ∙ second_firmware memory))))))

load-LoadsKernel_example :
    LoadsKernel flat flat-IsMachine few_pages few_pages-IsQueue flat_view law memory_file
      memory_file-IsFile elf types kernel_bytes kernel placed
      (load memory_file elf flat few_pages types
        (record { file = (kernel_bytes, 0); context = before_loading }))
load-LoadsKernel_example =
    load-LoadsKernel flat flat-IsMachine few_pages few_pages-IsQueue flat_view law memory_file
      memory_file-IsFile elf types kernel_bytes kernel placed
      (record { file = (kernel_bytes, 0); context = before_loading }) refl refl turns
