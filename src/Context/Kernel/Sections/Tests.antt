-- ===== src/Context/Kernel/Sections/Tests.antt =====
-- A run of the sections' names, from the file to the kernel.
use uefi_bootloader.Prelude.{
  ℕ, zero, suc, ◌+◌, ◌*◌, ◌≤◌, ◌<◌, ◌≡◌, refl, some, List, [], ◌∷◌, map, arith, range, ok,
}
use uefi_bootloader.Api.{ElfSection}
use uefi_bootloader.Api.Names.{Utf8, section_name}
use uefi_bootloader.Api.Laws.{Names, section_name-elf_sections}
use uefi_bootloader.Modules.{calculate_pages}
use uefi_bootloader.Context.Segment.{allocate_slice, allocate_slice_inner}
use uefi_bootloader.Context.Samples.{flat, few_pages, before_loading}
use uefi_bootloader.Context.Kernel.{Header, SectionHeader, Loader, elf_sections}
use uefi_bootloader.Context.Kernel.Headers.{HasSections, section_bytes}
use uefi_bootloader.Context.Kernel.Tests.{memory_file, memory_file-IsFile, bytes_elf, types}

-- Text as bytes.
abbrev ascii : Utf8
ascii = record { Str = List ℕ; from_utf8 = λ bytes. some bytes }

-- Two section headers, and at the byte 8 the table of the names ".a" and ".bc".
abbrev contents : List ℕ
contents = 0 ∷ 16 ∷ 1 ∷ 8 ∷ 3 ∷ 5 ∷ 6 ∷ 8 ∷ 46 ∷ 97 ∷ 0 ∷ 46 ∷ 98 ∷ 99 ∷ 0 ∷ 7 ∷ []

abbrev header : Header
header = record { e_entry = 0; e_phoff = 0; e_shoff = 0; e_phnum = 0; e_shnum = 2; e_shstrndx = 1 }

abbrev headers : ℕ → SectionHeader
headers zero = record { sh_name = 0; sh_flags = 0; sh_addr = 16; sh_offset = 8; sh_size = 1 }
headers (suc i) = record { sh_name = 3; sh_flags = 0; sh_addr = 5; sh_offset = 8; sh_size = 6 }

abbrev text : ℕ → List ℕ
text zero = 46 ∷ 97 ∷ []
text (suc i) = 46 ∷ 98 ∷ 99 ∷ []

parsed :
    (i : ℕ)
    → i < 2
    → bytes_elf.section_header (section_bytes bytes_elf contents header i) ≡ some (headers i)
parsed zero h = refl
parsed (suc zero) h = refl
parsed (suc (suc i)) h = absurd (omega (arith, h))

name_places : (i : ℕ) → i < 2 → 8 + (headers i).sh_name ≤ 16
name_places zero h = omega arith
name_places (suc i) h = omega arith

has_sections : HasSections bytes_elf contents header headers
has_sections = record {
  small = omega arith;
  inside = omega arith;
  parsed = parsed;
  name_table = omega arith;
  names = name_places;
}

names : (i : ℕ) → i < 2 → Names ascii contents (8 + (headers i).sh_name) (text i)
names zero h = record {
  bytes = 46 ∷ 97 ∷ [];
  more = 46 ∷ 98 ∷ 99 ∷ 0 ∷ 7 ∷ [];
  stands = refl;
  no_zero = ((λ e. omega (arith, e)), ((λ e. omega (arith, e)), tt));
  short = omega arith;
  decodes = refl;
}
names (suc i) h = record {
  bytes = 46 ∷ 98 ∷ 99 ∷ [];
  more = 7 ∷ [];
  stands = refl;
  no_zero = ((λ e. omega (arith, e)), ((λ e. omega (arith, e)), ((λ e. omega (arith, e)), tt)));
  short = omega arith;
  decodes = refl;
}

abbrev loader : Loader memory_file bytes_elf flat few_pages types
loader = record { file = (contents, 0); context = before_loading }

section_name-elf_sections_example :
    (after : Loader memory_file bytes_elf flat few_pages types) × (sections : List ElfSection)
    × (elf_sections memory_file bytes_elf flat few_pages types header loader ≡ ok (after, sections))
    × (map (section_name ascii) sections ≡ map (λ i. ok (text i)) (range 0 2))
unfolding allocate_slice allocate_slice_inner calculate_pages
section_name-elf_sections_example =
    section_name-elf_sections memory_file memory_file-IsFile bytes_elf contents header headers
      has_sections ascii text names flat few_pages types loader _ (500 * 4096) refl refl
