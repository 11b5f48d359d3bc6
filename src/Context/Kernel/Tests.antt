-- ===== src/Context/Kernel/Tests.antt =====
-- Runs of `map_segment` and of the kernel's loading.
use uefi_bootloader.Prelude.{
  ℕ, zero, suc, ◌+◌, ◌*◌, ◌/◌, ◌%◌, ◌^◌, ◌≤◌, ◌<◌, bit_and, ◌≡◌, refl, ◌⊎◌, true, none, some, List,
  [], arith, leb, ◌==◌, if◌then◌else◌, length, get_or, take, drop, range, panic,
}
use uefi_bootloader.Arch.Aarch64.Machine.{aarch64}
use uefi_bootloader.Context.Segment.{segment_flags}
use uefi_bootloader.Context.Segment.Flags.{segment_flags-writable}
use uefi_bootloader.Arch.BitRanges.{bit_ranges}
use uefi_bootloader.Arch.Aarch64.Canonical.{physical_space}
use uefi_bootloader.Arch.Machine.{IsPageMap}
use uefi_bootloader.FrameAllocator.{MemoryTypes}
use uefi_bootloader.FrameAllocator.Source.{uefi}
use uefi_bootloader.Context.Samples.{
  flat, flat-IsMachine, flat_view, flat-IsPageMap, few_pages, few_pages-IsQueue, segment,
  before_loading, segment-IsLoadable,
}
use uefi_bootloader.Context.Segment.{map_segment, allocate_slice, allocate_slice_inner}
use uefi_bootloader.Context.Segment.Loadable.{Mapping}
use uefi_bootloader.Context.Segment.Maps.{map_segment-Mapping}
use uefi_bootloader.Context.Kernel.{
  Header, SectionHeader, Elf, RegularFile, Loader, elf_sections, handle_load_segment,
}
use uefi_bootloader.Context.Kernel.Media.{IsFile}
use uefi_bootloader.Context.Kernel.Load.{Loads, handle_load_segment-Loads}
use uefi_bootloader.Context.Kernel.Headers.{HasSections, section_bytes}
use uefi_bootloader.Context.Kernel.Sections.{HandsOver, elf_sections-HandsOver}
use uefi_bootloader.Modules.{calculate_pages}

abbrev pub law :
    IsPageMap flat (uefi (physical_space bit_ranges) few_pages) few_pages-IsQueue flat_view
law = flat-IsPageMap (uefi (physical_space bit_ranges) few_pages) few_pages-IsQueue

map_segment-Mapping_example :
    Mapping flat flat-IsMachine few_pages few_pages-IsQueue flat_view law segment before_loading
      (500 * 4096)
      (map_segment flat few_pages segment before_loading)
map_segment-Mapping_example =
    map_segment-Mapping flat flat-IsMachine few_pages few_pages-IsQueue flat_view law segment
      before_loading (500 * 4096) 503 segment-IsLoadable

-- A file is its bytes and a position; a read from past the end fails.
abbrev pub memory_file : RegularFile
memory_file = record {
  State = List ℕ × ℕ;
  set_position = λ f p. some (f.0, p);
  read =
      λ f n. ((f.0, f.1 + n), if leb f.1 (length f.0) then some (take n (drop f.1 f.0)) else none);
}

abbrev pub memory_file-IsFile : IsFile memory_file
memory_file-IsFile = record {
  contents = λ f. f.0;
  position = λ f. f.1;
  seek = λ f p. (f.0, p);
  seeks = λ f p h. refl;
  position-seek = λ f p h. refl;
  contents-seek = λ f p h. refl;
  reads = λ f n h. let inside : leb f.1 (length f.0) ≡ true = ground (arith, h) in rw inside refl;
  contents-read = λ f n. refl;
}

-- Headers of four bytes: a name's place, and the start, the size and the offset of a section.
abbrev pub bytes_elf : Elf
bytes_elf = record {
  size_of_header = 8;
  size_of_program_header = 8;
  size_of_section_header = 4;
  header = λ b. record {
    e_entry = 0;
    e_phoff = 0;
    e_shoff = 40;
    e_phnum = 0;
    e_shnum = 3;
    e_shstrndx = 1;
  };
  program_header = λ b. none;
  section_header = λ b. some (record {
    sh_name = get_or b 0 0;
    sh_flags = 0;
    sh_addr = get_or b 1 0;
    sh_offset = get_or b 3 0;
    sh_size = get_or b 2 0;
  });
}

abbrev pub types : MemoryTypes
types = record {
  conventional = 7;
  loader_code = 1;
  loader_data = 2;
  boot_services_code = 3;
  boot_services_data = 4;
  conventional-lt = omega arith;
  loader_code-lt = omega arith;
  loader_data-lt = omega arith;
  boot_services_code-lt = omega arith;
  boot_services_data-lt = omega arith;
}

abbrev pub kernel_bytes : List ℕ
kernel_bytes = range 0 100

abbrev loader : Loader memory_file bytes_elf flat few_pages types
loader = record { file = (kernel_bytes, 0); context = before_loading }

handle_load_segment-Loads_example :
    ((3 ≤ 0x2000)
      × Loads flat flat-IsMachine few_pages few_pages-IsQueue flat_view law memory_file
          memory_file-IsFile bytes_elf types segment loader
          (500 * 4096)
          (handle_load_segment memory_file bytes_elf flat few_pages types segment loader))
    ⊎ ((0x2000 < 3)
        × (handle_load_segment memory_file bytes_elf flat few_pages types segment loader ≡ panic))
handle_load_segment-Loads_example =
    handle_load_segment-Loads flat flat-IsMachine few_pages few_pages-IsQueue flat_view law
      memory_file memory_file-IsFile bytes_elf types segment loader (500 * 4096) 503
      segment-IsLoadable (omega arith) (omega arith)

abbrev kernel_header : Header
kernel_header = bytes_elf.header []

abbrev headers : ℕ → SectionHeader
headers i = record {
  sh_name = 40 + i * 4;
  sh_flags = 0;
  sh_addr = 41 + i * 4;
  sh_offset = 43 + i * 4;
  sh_size = 42 + i * 4;
}

parsed :
    (i : ℕ)
    → i < 3
    → bytes_elf.section_header (section_bytes bytes_elf kernel_bytes kernel_header i)
      ≡ some (headers i)
parsed zero h = refl
parsed (suc zero) h = refl
parsed (suc (suc zero)) h = refl
parsed (suc (suc (suc i))) h = absurd (omega (arith, h))

kernel_bytes-HasSections : HasSections bytes_elf kernel_bytes kernel_header headers
kernel_bytes-HasSections = record {
  small = omega arith;
  inside = omega arith;
  parsed = parsed;
  name_table = omega arith;
  names = λ i h. omega (arith, h);
}

elf_sections-HandsOver_example :
    HandsOver memory_file memory_file-IsFile bytes_elf kernel_bytes kernel_header headers
      kernel_bytes-HasSections flat few_pages types loader
      (elf_sections memory_file bytes_elf flat few_pages types kernel_header loader)
unfolding allocate_slice allocate_slice_inner calculate_pages
elf_sections-HandsOver_example =
    elf_sections-HandsOver memory_file memory_file-IsFile bytes_elf kernel_bytes kernel_header
      headers kernel_bytes-HasSections flat few_pages types loader _ (500 * 4096) refl refl

-- A segment that is to be read and executed only.
segment_flags-writable_example :
    (segment_flags (aarch64 bit_ranges) segment % 2 ≡ 1)
    × (segment_flags (aarch64 bit_ranges) segment / 2 ^ 7 % 2 ≡ 0)
    × (segment_flags (aarch64 bit_ranges) segment / 2 ^ 53 % 4
        ≡ (if bit_and segment.p_flags 0x1 == 0 then 3 else 0))
segment_flags-writable_example = segment_flags-writable bit_ranges segment
