-- ===== src/Context/Kernel.antt =====
-- uefi-bootloader/src/kernel.rs: the kernel's segments and sections. `RegularFile` stands for the file
-- of the crate `uefi`, `Elf` for what the crate `goblin` reads in bytes.
pub mod Media
pub mod Load
pub mod Headers
pub mod Sections
pub mod Program
pub mod Segments
pub mod Loop
pub mod Whole
mod Tests
use uefi_bootloader.Prelude.{
  ℕ, Option, List, [], ◌∷◌, leb, ◌==◌, if◌then◌else◌, length, replicate, take, range, ◌+w◌, ◌*w◌,
  Outcome, ◌>>=◌, ◌>>◌, expect, guard, ok, panic,
}
use uefi_bootloader.Api.{ElfSection}
use uefi_bootloader.Memory.Address.{Address, new_canonical}
use uefi_bootloader.Arch.Machine.{Machine}
use uefi_bootloader.FrameAllocator.{MemoryTypes}
use uefi_bootloader.FrameAllocator.Source.{BootServices}
use uefi_bootloader.PageAllocator.{ProgramHeader}
use uefi_bootloader.Modules.{overwrite}
use uefi_bootloader.Context.Segment.{write_bytes, BootContext, allocate_slice, map_segment}

pub record Header : Type 0 where
  pub e_entry : ℕ
  pub e_phoff : ℕ
  pub e_shoff : ℕ
  pub e_phnum : ℕ
  pub e_shnum : ℕ
  pub e_shstrndx : ℕ

pub record SectionHeader : Type 0 where
  pub sh_name : ℕ
  pub sh_flags : ℕ
  pub sh_addr : ℕ
  pub sh_offset : ℕ
  pub sh_size : ℕ

pub record Elf : Type 0 where
  pub size_of_header : ℕ
  pub size_of_program_header : ℕ
  pub size_of_section_header : ℕ
  pub header : List ℕ → Header
  pub program_header : List ℕ → Option ProgramHeader
  pub section_header : List ℕ → Option SectionHeader

-- `read` gives at most so many bytes.
pub record RegularFile : Type 1 where
  pub State : Type 0
  pub set_position : State → ℕ → Option State
  pub read : State → ℕ → State × Option (List ℕ)

pub data FileType (file : RegularFile) : Type 0 where
  regular : file.State → FileType file
  dir : FileType file

-- `size_of::<ElfSection>()`
abbrev pub size_of_elf_section : ℕ
size_of_elf_section = 88

module _ (media : RegularFile) where
  unfoldable pub set_position : ℕ → media.State → Outcome media.State
  set_position p f = expect (media.set_position f p)

  -- A read into a buffer, whose other bytes stay.
  unfoldable pub read_buffer : List ℕ → media.State → Outcome (media.State × List ℕ)
  unfolding overwrite
  read_buffer buffer f =
      let (f', got) = media.read f (length buffer) in
      expect got >>= λ bytes. ok (f', overwrite buffer 0 bytes)

  module _ (elf : Elf) where
    -- The body of the loop over the sections, for the section `i`, with the loop's buffer.
    unfoldable pub read_section :
        Header → ℕ → ℕ → List ℕ → media.State → Outcome (media.State × List ℕ × ElfSection)
    unfolding set_position read_buffer
    read_section header shstrtab_base i buffer f = do
      f1 ← set_position (header.e_shoff +w (i *w elf.size_of_section_header)) f
      r ← read_buffer buffer f1
      section_header ← expect (elf.section_header r.1)
      f2 ← set_position (shstrtab_base +w section_header.sh_name) r.0
      name ← read_buffer (replicate 64 0) f2
      ok (
        name.0,
        r.1,
        record {
          name = name.1;
          start = section_header.sh_addr;
          size = section_header.sh_size;
          flags = section_header.sh_flags;
        },
      )

    unfoldable pub read_sections :
        Header → ℕ → List ℕ → List ℕ → media.State → Outcome (media.State × List ElfSection)
    unfolding read_section
    read_sections header shstrtab_base [] buffer f = ok (f, [])
    read_sections header shstrtab_base (i ∷ is) buffer f =
        read_section header shstrtab_base i buffer f >>= λ r.
        read_sections header shstrtab_base is r.1 r.0 >>= λ rest. ok (rest.0, r.2 ∷ rest.1)

    module _ (machine : Machine) (services : BootServices) (types : MemoryTypes) where
      pub record Loader : Type 0 where
        pub file : media.State
        pub context : BootContext machine services

      unfoldable pub elf_sections : Header → Loader → Outcome (Loader × List ElfSection)
      unfolding allocate_slice set_position read_buffer read_sections
      elf_sections header l = do
        slice ←
            allocate_slice machine services size_of_elf_section header.e_shnum types.loader_data
              l.context
        let shstrtab_header = header.e_shoff +w (header.e_shstrndx *w elf.size_of_section_header)
        f ← set_position shstrtab_header l.file
        r ← read_buffer (replicate elf.size_of_section_header 0) f
        shstrtab ← expect (elf.section_header r.1)
        sections ← read_sections header shstrtab.sh_offset (range 0 header.e_shnum) r.1 r.0
        ok (record { file = sections.0; context = slice.0 }, sections.1)

      unfoldable pub handle_load_segment : ProgramHeader → Loader → Outcome Loader
      unfolding map_segment set_position
      handle_load_segment segment l = do
        mapped ← map_segment machine services segment l.context
        f ← set_position segment.p_offset l.file
        guard (leb segment.p_filesz mapped.1.len)
        let got = media.read f segment.p_filesz
        bytes ← expect got.1
        ok (record {
          file = got.0;
          context = record mapped.0 {
            memory = write_bytes mapped.0.memory mapped.1.pointer (take segment.p_filesz bytes);
          };
        })

      -- The body of the loop over the program headers, for the header `i`.
      unfoldable pub load_segment : ℕ → ℕ → List ℕ → Loader → Outcome (Loader × List ℕ)
      unfolding set_position read_buffer handle_load_segment
      load_segment program_header_offset i buffer l = do
        f ← set_position (program_header_offset +w (i *w elf.size_of_program_header)) l.file
        r ← read_buffer buffer f
        program_header ← expect (elf.program_header r.1)
        let here : Loader = record l { file = r.0 }
        after ←
            (if program_header.p_memsz == 0
              then ok here
              else (if program_header.p_type == 1
                  then handle_load_segment program_header here
                  else ok here))
        ok (after, r.1)

      unfoldable pub load_segments : ℕ → List ℕ → List ℕ → Loader → Outcome Loader
      unfolding load_segment
      load_segments program_header_offset [] buffer l = ok l
      load_segments program_header_offset (i ∷ is) buffer l =
          load_segment program_header_offset i buffer l >>= λ r.
          load_segments program_header_offset is r.1 r.0

      unfoldable pub load : Loader → Outcome (Loader × Address × List ElfSection)
      unfolding read_buffer load_segments elf_sections new_canonical
      load l = do
        r ← read_buffer (replicate elf.size_of_header 0) l.file
        let kernel_header = elf.header r.1
        loaded ←
            load_segments kernel_header.e_phoff (range 0 kernel_header.e_phnum)
              (replicate elf.size_of_program_header 0) (record l { file = r.0 })
        sections ← elf_sections kernel_header loaded
        ok (sections.0, new_canonical machine.virtual_space kernel_header.e_entry, sections.1)

      -- The file system's root, and what opening the kernel in it gives.
      unfoldable pub load_kernel :
          Option (Option (FileType media))
          → BootContext machine services
          → Outcome (BootContext machine services × Address × List ElfSection)
      unfolding load
      load_kernel root c = do
        opened ← expect root
        kind ← expect opened
        f ← (elim kind [ regular f ↦ ok f | dir ↦ panic ])
        r ← load (record { file = f; context = c })
        ok (r.0.context, r.1, r.2)
