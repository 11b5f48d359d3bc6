-- ===== src/Api/Laws.antt =====
-- The names and the slices of uefi-bootloader-api/src/lib.rs: what was stored is read back.
use uefi_bootloader.Prelude.{
  ℕ, zero, suc, ◌+◌, ◌-◌, ◌*◌, ◌^◌, ◌≤◌, ◌<◌, ◌≡◌, refl, sym, ap, ◌∙◌, ◌≢◌, false, none, some, List,
  [], ◌∷◌, ◌++◌, map, arith, ◌==◌, if◌then◌else◌, length, replicate, take, drop, All, range,
  Outcome, expect, ok,
}
use mathlib.Core.List.{append_assoc, append-nil}
use uefi_bootloader.Api.Names.{Utf8, position_of_zero, unwrap_or, module_name, section_name}
use uefi_bootloader.Modules.{
  Firmware, FileInfo, Module, overwrite, load_modules, size_of_module, modules_memory,
  allocate_slice,
}
use uefi_bootloader.Modules.Names.{encoded, padded_name, overwrite_zeros}
use uefi_bootloader.Modules.Files.{AllFiles, files, total_pages, Holds, done, skipped, loaded}
use uefi_bootloader.Modules.Load.{LoadsAll, load_modules-LoadsAll}
use mathlib.Core.Path.{ap₂}
use uefi_bootloader.Api.{ElfSection}
use uefi_bootloader.Memory.Address.{Address}
use uefi_bootloader.Arch.Machine.{Machine}
use uefi_bootloader.FrameAllocator.{MemoryTypes}
use uefi_bootloader.FrameAllocator.Source.{BootServices}
use uefi_bootloader.Context.Segment as Segments
use uefi_bootloader.Context.Segment.{BootContext}
use uefi_bootloader.Context.Kernel.{
  Header, SectionHeader, RegularFile, Elf, Loader, size_of_elf_section, elf_sections,
}
use uefi_bootloader.Context.Kernel.Media.{IsFile, bytes_at}
use uefi_bootloader.Context.Kernel.Headers.{section_of, HasSections}
use uefi_bootloader.Context.Kernel.Sections.{elf_sections-HandsOver}

abbrev up_to_zero : List ℕ → List ℕ
up_to_zero bs = take (unwrap_or (position_of_zero bs) (length bs)) bs

abbrev pub NoZero : List ℕ → Type 0
NoZero bs = All (λ b. b ≢ 0) bs

take-length : (bs more : List ℕ) → take (length bs) (bs ++ more) ≡ bs
take-length [] more = refl
take-length (b ∷ bs) more = ap (λ l. b ∷ l) (take-length bs more)

position_stop :
    (bs more : List ℕ) → NoZero bs → position_of_zero (bs ++ 0 ∷ more) ≡ some (length bs)
position_stop [] more h = refl
position_stop (b ∷ bs) more h =
    let not_zero : (b == 0) ≡ false = ground (arith, h.0) in
    rw (not_zero, position_stop bs more h.1) refl

position_none : (bs : List ℕ) → NoZero bs → position_of_zero bs ≡ none
position_none [] h = refl
position_none (b ∷ bs) h =
    let not_zero : (b == 0) ≡ false = ground (arith, h.0) in
    rw (not_zero, position_none bs h.1) refl

-- Bytes before the first zero, and bytes without one.
up_to_zero_stop : (bs more : List ℕ) → NoZero bs → up_to_zero (bs ++ 0 ∷ more) ≡ bs
up_to_zero_stop bs more h = rw (position_stop bs more h) (take-length bs (0 ∷ more))

up_to_zero_padded : (bs : List ℕ) (n : ℕ) → NoZero bs → up_to_zero (bs ++ replicate n 0) ≡ bs
up_to_zero_padded bs zero h =
    let whole = append-nil bs in
    rw (whole, position_none bs h) (ap (take (length bs)) (sym (append-nil bs)) ∙ take-length bs [])
up_to_zero_padded bs (suc n) h = up_to_zero_stop bs (replicate n 0) h

length-take_le : (n : ℕ) (xs : List ℕ) → length (take n xs) ≤ n
length-take_le zero xs = omega arith
length-take_le (suc n) [] = omega arith
length-take_le (suc n) (x ∷ xs) = omega (arith, length-take_le n xs)

take_stop :
    (n : ℕ) (bs more : List ℕ)
    → length bs < n
    → (rest : List ℕ) × (take n (bs ++ 0 ∷ more) ≡ bs ++ 0 ∷ rest) × (length (bs ++ 0 ∷ rest) ≤ n)
take_stop zero bs more h = absurd (omega (arith, h))
take_stop (suc n) [] more h = (take n more, refl, omega (arith, length-take_le n more))
take_stop (suc n) (b ∷ bs) more h =
    let (rest, e, size) = take_stop n bs more (omega (arith, h)) in
    (rest, ap (λ l. b ∷ l) e, omega (arith, size))

-- A file with the name of a section at its place in the name table, ended by a zero.
pub record Names (utf8 : Utf8) (contents : List ℕ) (at : ℕ) (text : utf8.Str) : Type 0 where
  pub bytes : List ℕ
  pub more : List ℕ
  pub stands : drop at contents ≡ bytes ++ 0 ∷ more
  pub no_zero : NoZero bytes
  pub short : length bytes < 64
  pub decodes : utf8.from_utf8 bytes ≡ some text

section_name-section_of :
    (utf8 : Utf8) (contents : List ℕ) (base : ℕ) (header : SectionHeader) (text : utf8.Str)
    → Names utf8 contents (base + header.sh_name) text
    → section_name utf8 (section_of contents base header) ≡ ok text
unfolding section_name
section_name-section_of utf8 contents base header text n =
    let (rest, e, size) = take_stop 64 n.bytes n.more n.short in
    let read : bytes_at contents (base + header.sh_name) 64 ≡ n.bytes ++ 0 ∷ rest =
      ap (take 64) n.stands ∙ e in
    let written : overwrite (replicate 64 0) 0 (bytes_at contents (base + header.sh_name) 64)
        ≡ n.bytes ++ 0 ∷ (rest ++ replicate (64 - length (n.bytes ++ 0 ∷ rest)) 0) =
      ap (overwrite (replicate 64 0) 0) read
      ∙ overwrite_zeros 64 (n.bytes ++ 0 ∷ rest) size
      ∙ append_assoc n.bytes (0 ∷ rest) (replicate (64 - length (n.bytes ++ 0 ∷ rest)) 0) in
    ap (λ b. expect (utf8.from_utf8 (up_to_zero b))) written
    ∙ ap (λ b. expect (utf8.from_utf8 b)) (up_to_zero_stop n.bytes _ n.no_zero)
    ∙ ap expect n.decodes

module _ (media : RegularFile) (is_file : IsFile media) (elf : Elf) (contents : List ℕ)
    (header : Header) (headers : ℕ → SectionHeader) (has : HasSections elf contents header headers)
    (utf8 : Utf8) (text : ℕ → utf8.Str)
    (names : (i : ℕ)
      → i < header.e_shnum
      → Names utf8 contents
          ((headers header.e_shstrndx).sh_offset + (headers i).sh_name)
          (text i)) where
  names-range :
      (b n : ℕ)
      → b + n ≤ header.e_shnum
      → map (section_name utf8) (
          map
            (λ i. section_of contents (headers header.e_shstrndx).sh_offset (headers i))
            (range b n))
        ≡ map (λ i. ok (text i)) (range b n)
  names-range b zero h = refl
  names-range b (suc n) h =
      ap₂ (λ x l. x ∷ l)
        (section_name-section_of utf8 contents (headers header.e_shstrndx).sh_offset (headers b)
          (text b) (names b (omega (arith, h))))
        (names-range (b + 1) n (omega (arith, h)))

  -- `elf_sections` and `ElfSection::name`: on a file with the headers of its sections, where the slice
  -- can be allocated and the name of each section stands in the name table as the bytes of a text of
  -- less than 64 bytes, none of them zero, and a zero: the sections are handed over, and their names
  -- are these texts, in order, whatever follows them in the file.
  pub section_name-elf_sections :
      (machine : Machine) (services : BootServices) (types : MemoryTypes)
      (l : Loader media elf machine services types) (context : BootContext machine services)
      (pointer : Address)
      → Segments.allocate_slice machine services size_of_elf_section header.e_shnum
          types.loader_data l.context
        ≡ ok (context, pointer)
      → is_file.contents l.file ≡ contents
      → (after : Loader media elf machine services types) × (sections : List ElfSection)
        × (elf_sections media elf machine services types header l ≡ ok (after, sections))
        × (map (section_name utf8) sections ≡ map (λ i. ok (text i)) (range 0 header.e_shnum))
  section_name-elf_sections machine services types l context pointer e same =
      let s =
        elf_sections-HandsOver media is_file elf contents header headers has machine services types
          l context pointer e same in
      (s.after, _, s.returns, names-range 0 header.e_shnum (omega arith))

-- The text of characters: no other character than the first one has a zero byte, and the bytes of a
-- text are read as that text.
pub record IsUtf8 (fw : Firmware) (utf8 : Utf8) : Type 0 where
  pub text : List ℕ → utf8.Str
  pub no_zero : (c : ℕ) → c ≢ 0 → NoZero (fw.encode_utf8 c)
  pub decodes : (cs : List ℕ) → utf8.from_utf8 (encoded fw cs) ≡ some (text cs)

All-append : (xs ys : List ℕ) → NoZero xs → NoZero ys → NoZero (xs ++ ys)
All-append [] ys h k = k
All-append (x ∷ xs) ys h k = (h.0, All-append xs ys h.1 k)

module _ (fw : Firmware) (utf8 : Utf8) (is_utf8 : IsUtf8 fw utf8) where
  open is_utf8 use {text}

  encoded-NoZero : (cs : List ℕ) → NoZero cs → NoZero (encoded fw cs)
  unfolding encoded
  encoded-NoZero [] h = tt
  encoded-NoZero (c ∷ cs) h =
      All-append (fw.encode_utf8 c) (encoded fw cs) (is_utf8.no_zero c h.0) (encoded-NoZero cs h.1)

  module_name-padded :
      (m : Module) (cs : List ℕ)
      → m.name ≡ padded_name fw cs
      → NoZero cs
      → module_name utf8 m ≡ ok (text cs)
  unfolding module_name
  module_name-padded m cs e h =
      ap (λ b. expect (utf8.from_utf8 (up_to_zero b))) e
      ∙ ap (λ b. expect (utf8.from_utf8 b))
          (up_to_zero_padded (encoded fw cs) (64 - length (encoded fw cs)) (encoded-NoZero cs h))
      ∙ ap expect (is_utf8.decodes cs)

  -- The names of the files of a directory, as text.
  abbrev pub texts : List FileInfo → List (Outcome utf8.Str)
  texts [] = []
  texts (info ∷ rest) =
      if info.is_directory then texts rest else ok (text info.file_name) ∷ texts rest

  names-Holds :
      (raw : List ℕ) (p : ℕ) (infos : List FileInfo) (ms : List Module)
      → All (λ info. NoZero info.file_name) infos
      → Holds fw raw p infos ms
      → map (module_name utf8) ms ≡ texts infos
  names-Holds raw p _ _ h done = refl
  names-Holds raw p (info ∷ rest) ms h (skipped e r) = rw e (names-Holds raw p rest ms h.1 r)
  names-Holds raw p (info ∷ rest) (m ∷ ms) h (loaded e name at len bytes r) =
      rw (e, module_name-padded m info.file_name name h.0)
        (ap (λ l. ok (text info.file_name) ∷ l) (names-Holds raw _ rest ms h.1 r))

  -- `load_modules` and `Module::name`: under the conditions of `load_modules-LoadsAll`, and if no name
  -- of a file has a zero character, the names of the modules that are loaded are those of the files of
  -- the directory, in order.
  pub module_name-load_modules :
      (dir : List FileInfo) (a b : ℕ)
      → AllFiles dir
      → All (λ info. NoZero info.file_name) dir
      → total_pages dir < 2 ^ 50
      → allocate_slice fw size_of_module fw.loader_data (files dir) ≡ ok a
      → allocate_slice fw 1 modules_memory (total_pages dir * 4096) ≡ ok b
      → (l : LoadsAll fw dir (load_modules fw (some dir))) × (map (module_name utf8) l.modules
          ≡ texts dir)
  module_name-load_modules dir a b h names small ea eb =
      let l = load_modules-LoadsAll fw dir a b h small ea eb in
      (l, names-Holds l.raw_bytes 0 dir l.modules names l.holds)
