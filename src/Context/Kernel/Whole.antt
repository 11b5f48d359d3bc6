-- ===== src/Context/Kernel/Whole.antt =====
-- `load` of uefi-bootloader/src/kernel.rs: the kernel in memory, its entry point and its sections.
mod Tests
use uefi_bootloader.Prelude.{
  ℕ, ◌+◌, ◌*◌, ◌≤◌, ◌<◌, ◌≡◌, refl, sym, ap, ◌∙◌, ◌⊎◌, some, List, [], ◌∷◌, map, arith, length,
  replicate, take, drop, length-replicate, range, ◌*w◌, Outcome, ok,
}
use uefi_bootloader.Api.{ElfSection}
use uefi_bootloader.Memory.Address.{Address, new_canonical}
use uefi_bootloader.Arch.Machine.{Machine, IsMachine, PageView, IsPageMap}
use uefi_bootloader.FrameAllocator.{MemoryTypes}
use uefi_bootloader.FrameAllocator.Source.{IsQueue, any_pages, BootServices, uefi}
use uefi_bootloader.PageAllocator.{ProgramHeader}
use uefi_bootloader.Modules.{calculate_pages}
use uefi_bootloader.Context.Segment.{write_zeros, BootContext, allocate_slice_inner, allocate_slice}
use uefi_bootloader.Context.Segment.Pages.{offset_of}
use uefi_bootloader.Context.Kernel.{
  Header, SectionHeader, Elf, RegularFile, Loader, size_of_elf_section,
}
use uefi_bootloader.Context.Kernel.Media.{IsFile, bytes_at}
use uefi_bootloader.Context.Kernel.Headers.{HasSections, section_of}
use uefi_bootloader.Context.Kernel.Program.{Placed, Every, HasProgramHeaders, InPlace}
use mathlib.Core.Path.{subst}
use uefi_bootloader.Context.Kernel.{read_buffer, load}
use uefi_bootloader.Context.Kernel.Media.{length-bytes_at, overwrite_whole}
use uefi_bootloader.Context.Kernel.Sections.{elf_sections-HandsOver}
use uefi_bootloader.Context.Kernel.Program.{Turns}
use uefi_bootloader.Context.Kernel.Loop.{load_segments-LoadsAll}

-- A kernel's file: its header, its program headers and its section headers.
pub record KernelFile (elf : Elf) (bytes : List ℕ) : Type 0 where
  pub header : Header
  pub programs : ℕ → ProgramHeader
  pub sections : ℕ → SectionHeader
  pub whole : elf.size_of_header ≤ length bytes
  pub starts : elf.header (bytes_at bytes 0 elf.size_of_header) ≡ header
  pub has_programs : HasProgramHeaders elf bytes header.e_phoff header.e_phnum programs
  pub has_sections : HasSections elf bytes header sections

-- Two conditions on every segment, together.
Every-both :
    (P Q R : Placed → Type 0) (ps : List Placed)
    → ((p : Placed) → P p → Q p → R p)
    → Every P ps
    → Every Q ps
    → Every R ps
Every-both P Q R [] f h k = tt
Every-both P Q R (p ∷ ps) f h k = (f p h.0 k.0, Every-both P Q R ps f h.1 k.1)

module _ (machine : Machine) (is_machine : IsMachine machine) (services : BootServices)
    (q : IsQueue (uefi machine.physical_space services)) (v : PageView machine)
    (law : IsPageMap machine (uefi machine.physical_space services) q v) (media : RegularFile)
    (is_file : IsFile media) (elf : Elf) (types : MemoryTypes) (bytes : List ℕ)
    (kernel : KernelFile elf bytes) (ps : List Placed) where
  open is_file use {contents, position}
  open kernel use {header}

  -- The slice for the sections can be allocated, apart from the segments.
  pub record HasRoom (c : BootContext machine services) : Type 0 where
    pub firmware : services.State
    pub pointer : Address
    pub allocated :
        services.allocate_pages c.firmware any_pages types.loader_data
          (calculate_pages (size_of_elf_section *w header.e_shnum))
        ≡ (firmware, some pointer)
    pub apart :
        Every
          (λ p.
            (k : ℕ)
            → k < p.segment.p_memsz
            → (p.pointer + offset_of p.segment + k < pointer)
              ⊎ (pointer + size_of_elf_section * header.e_shnum
                  ≤ p.pointer + offset_of p.segment + k))
          ps

  -- The kernel is loaded: every segment is in its place, and the result has the entry point and the
  -- sections.
  pub record LoadsKernel
      (r : Outcome (Loader media elf machine services types × Address × List ElfSection))
      : Type 0 where
    pub after : Loader media elf machine services types
    pub returns :
        r
        ≡ ok (
          after,
          new_canonical machine.virtual_space header.e_entry,
          map
              (λ i.
                section_of bytes (kernel.sections header.e_shstrndx).sh_offset (kernel.sections i))
              (range 0 header.e_shnum),
        )
    pub in_place : Every (InPlace machine is_machine services q v law bytes after.context) ps

  cleared : (c : BootContext machine services) → HasRoom c → BootContext machine services
  cleared c h = record c {
    firmware = h.firmware;
    memory = write_zeros c.memory h.pointer (size_of_elf_section * header.e_shnum);
  }

  allocate_slice-eq :
      (c : BootContext machine services) (h : HasRoom c)
      → allocate_slice machine services size_of_elf_section header.e_shnum types.loader_data c
        ≡ ok (cleared c h, h.pointer)
  unfolding allocate_slice allocate_slice_inner cleared
  allocate_slice-eq c h = rw h.allocated refl

  -- The zeros of the slice for the sections leave the segments in their places.
  cleared-InPlace :
      (c : BootContext machine services) (h : HasRoom c)
      → Every (InPlace machine is_machine services q v law bytes c) ps
      → Every (InPlace machine is_machine services q v law bytes (cleared c h)) ps
  unfolding cleared
  cleared-InPlace c h =
      Every-both _ (InPlace machine is_machine services q v law bytes c)
        (InPlace machine is_machine services q v law bytes (cleared c h)) ps
        (λ p apart i.
          let same : (k : ℕ)
              → k < p.segment.p_memsz
              → (cleared c h).memory (p.pointer + offset_of p.segment + k)
                ≡ c.memory (p.pointer + offset_of p.segment + k) =
            λ k lt. ground (arith, apart k lt) in
          record {
            fits = i.fits;
            holds = record {
              from_file = λ k lt. same k (omega (arith, lt, i.fits)) ∙ i.holds.from_file k lt;
              zeros = λ k ge lt. same k lt ∙ i.holds.zeros k ge lt;
            };
            reach = i.reach;
            bytes = i.bytes;
            marked = i.marked;
          })
        h.apart

  -- The header is read from the start of the file.
  read_header :
      (f : media.State)
      → contents f ≡ bytes
      → position f ≡ 0
      → (f' : media.State) × (read_buffer media (replicate elf.size_of_header 0) f
          ≡ ok (f', bytes_at bytes 0 elf.size_of_header))
        × (contents f' ≡ bytes)
  unfolding read_buffer
  read_header f same start =
      let n = elf.size_of_header in
      let len = length-replicate {A = ℕ} n 0 in
      let e : (media.read f (length (replicate {A = ℕ} n 0))).1 ≡ some (bytes_at bytes 0 n) =
        is_file.reads f (length (replicate {A = ℕ} n 0)) (rw start (omega arith))
        ∙ ap (λ p. some (take (length (replicate {A = ℕ} n 0)) (drop p (contents f)))) start
        ∙ ap (λ m. some (bytes_at (contents f) 0 m)) len
        ∙ ap (λ b. some (bytes_at b 0 n)) same in
      (
        (media.read f (length (replicate {A = ℕ} n 0))).0,
        rw e (
            ap (λ ys. ok ((media.read f (length (replicate {A = ℕ} n 0))).0, ys))
              (overwrite_whole (replicate n 0) (bytes_at bytes 0 n)
                (len ∙ sym (length-bytes_at bytes 0 n (omega (arith, kernel.whole)))))),
        is_file.contents-read f (length (replicate {A = ℕ} n 0)) ∙ same,
      )

  -- `load`, on a kernel's file that is read from its start, where each segment with the type 1 and a
  -- size can be loaded when its turn comes, apart from the others, and there is room for the sections:
  -- it returns the entry point, made canonical, and one section for each section header, every such
  -- segment is mapped with its flags to a slice that holds its bytes of the file and zeros after them,
  -- and its slots of virtual memory are taken.
  pub load-LoadsKernel :
      (l : Loader media elf machine services types)
      → contents l.file ≡ bytes
      → position l.file ≡ 0
      → Turns machine is_machine services q v law bytes HasRoom
          (map kernel.programs (range 0 header.e_phnum))
          l.context
          ps
      → LoadsKernel (load media elf machine services types l)
  unfolding load new_canonical
  load-LoadsKernel l same start turns =
      let (f, e, same') = read_header l.file same start in
      let l' : Loader media elf machine services types = record { file = f; context = l.context } in
      let a =
        load_segments-LoadsAll machine is_machine services q v law media is_file elf types bytes
          HasRoom header.e_phoff header.e_phnum kernel.programs kernel.has_programs 0 header.e_phnum
          (replicate elf.size_of_program_header 0) l' ps (omega arith)
          (length-replicate elf.size_of_program_header 0) same' turns in
      let s =
        elf_sections-HandsOver media is_file elf bytes header kernel.sections kernel.has_sections
          machine services types a.after (cleared a.after.context a.ready) a.ready.pointer
          (allocate_slice-eq a.after.context a.ready) a.same_file in
      let here : cleared a.after.context a.ready ≡ s.after.context =
        cc (s.allocated, allocate_slice-eq a.after.context a.ready) in
      record {
        after = s.after;
        returns = rw (e, kernel.starts, a.returns, s.returns) refl;
        in_place =
            subst (λ c. Every (InPlace machine is_machine services q v law bytes c) ps) here
              (cleared-InPlace a.after.context a.ready a.in_place);
      }
