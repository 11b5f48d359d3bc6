-- ===== src/Context/Kernel/Sections.antt =====
-- `elf_sections` of uefi-bootloader/src/kernel.rs: the sections that are handed to the kernel.
mod Tests
use uefi_bootloader.Prelude.{
  ℕ, ◌≡◌, refl, ap, ◌∙◌, List, map, arith, replicate, length-replicate, range, ◌+w◌, ◌*w◌, Outcome,
  ◌>>=◌, expect, ok,
}
use uefi_bootloader.Api.{ElfSection}
use uefi_bootloader.Memory.Address.{Address}
use uefi_bootloader.Arch.Machine.{Machine}
use uefi_bootloader.FrameAllocator.{MemoryTypes}
use uefi_bootloader.FrameAllocator.Source.{BootServices}
use uefi_bootloader.Context.Segment.{BootContext, allocate_slice}
use uefi_bootloader.Context.Kernel.{
  Header, SectionHeader, RegularFile, Elf, Loader, size_of_elf_section, read_sections, elf_sections,
  set_position, read_buffer,
}
use uefi_bootloader.Context.Kernel.Media.{IsFile}
use uefi_bootloader.Context.Kernel.Headers.{
  bind_assoc, section_of, section_bytes, HasSections, read_header, length-header, read_sections-eq,
}

module _ (media : RegularFile) (is_file : IsFile media) (elf : Elf) (contents : List ℕ)
    (header : Header) (headers : ℕ → SectionHeader)
    (has : HasSections elf contents header headers) where
  module _ (machine : Machine) (services : BootServices) (types : MemoryTypes)
      (l : Loader media elf machine services types) where
    -- All sections in order, in a slice that was allocated for them.
    pub record HandsOver (r : Outcome (Loader media elf machine services types × List ElfSection))
        : Type 0 where
      pub after : Loader media elf machine services types
      pub pointer : Address
      pub returns :
          r
          ≡ ok (
            after,
            map
                (λ i. section_of contents (headers header.e_shstrndx).sh_offset (headers i))
                (range 0 header.e_shnum),
          )
      pub allocated :
          allocate_slice machine services size_of_elf_section header.e_shnum types.loader_data
            l.context
          ≡ ok (after.context, pointer)
      pub same_file : is_file.contents after.file ≡ contents

    -- What follows the read of the name table's header.
    abbrev finish_table :
        BootContext machine services
        → media.State × List ℕ
        → Outcome (Loader media elf machine services types × List ElfSection)
    finish_table context r = do
      shstrtab ← expect (elf.section_header r.1)
      sections ← read_sections media elf header shstrtab.sh_offset (range 0 header.e_shnum) r.1 r.0
      ok (record { file = sections.0; context = context }, sections.1)

    finish_sections :
        (context : BootContext machine services) (pointer : Address) (f1 f2 : media.State)
        → allocate_slice machine services size_of_elf_section header.e_shnum types.loader_data
            l.context
          ≡ ok (context, pointer)
        → set_position media
              (header.e_shoff +w (header.e_shstrndx *w elf.size_of_section_header))
              l.file
            >>= read_buffer media (replicate elf.size_of_section_header 0)
          ≡ ok (f1, section_bytes elf contents header header.e_shstrndx)
        → read_sections media elf header
            (headers header.e_shstrndx).sh_offset
            (range 0 header.e_shnum)
            (section_bytes elf contents header header.e_shstrndx)
            f1
          ≡ ok (
            f2,
            map
                (λ i. section_of contents (headers header.e_shstrndx).sh_offset (headers i))
                (range 0 header.e_shnum),
          )
        → elf_sections media elf machine services types header l
          ≡ ok (
            record { file = f2; context = context },
            map
                (λ i. section_of contents (headers header.e_shstrndx).sh_offset (headers i))
                (range 0 header.e_shnum),
          )
    unfolding elf_sections
    finish_sections context pointer f1 f2 e0 e1 e2 = rw e0 (
        bind_assoc
          (set_position media (header.e_shoff +w (header.e_shstrndx *w elf.size_of_section_header))
            l.file)
          (read_buffer media (replicate elf.size_of_section_header 0)) (finish_table context)
        ∙ ap (λ x. x >>= finish_table context) e1
        ∙ rw (has.parsed header.e_shstrndx has.name_table, e2) refl)

    -- `elf_sections`, on a file with the headers of its sections and the places of their names in it,
    -- where the slice can be allocated: it returns one section for each header, in order, with the header's start, size and flags and
    -- the 64 bytes at the name's place, padded with zeros where the file ends.
    pub elf_sections-HandsOver :
        (context : BootContext machine services) (pointer : Address)
        → allocate_slice machine services size_of_elf_section header.e_shnum types.loader_data
            l.context
          ≡ ok (context, pointer)
        → is_file.contents l.file ≡ contents
        → HandsOver (elf_sections media elf machine services types header l)
    elf_sections-HandsOver context pointer e0 same =
        let (f1, e1, same1) =
          read_header media is_file elf contents header headers has header.e_shstrndx
            (replicate elf.size_of_section_header 0) l.file has.name_table
            (length-replicate elf.size_of_section_header 0) same in
        let (f2, e2, same2) =
          read_sections-eq media is_file elf contents header headers has 0 header.e_shnum
            (section_bytes elf contents header header.e_shstrndx) f1 (omega arith)
            (length-header media is_file elf contents header headers has header.e_shstrndx
              has.name_table)
            same1 in
        record {
          after = record { file = f2; context = context };
          pointer = pointer;
          returns = finish_sections context pointer f1 f2 e0 e1 e2;
          allocated = e0;
          same_file = same2;
        }
