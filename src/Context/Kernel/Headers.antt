-- ===== src/Context/Kernel/Headers.antt =====
-- The loop of `elf_sections` of uefi-bootloader/src/kernel.rs over the section headers of a file.
use uefi_bootloader.Prelude.{
  ℕ, zero, suc, ◌+◌, ◌-◌, ◌*◌, ◌^◌, ◌≤◌, ◌<◌, ◌≡◌, refl, sym, ap, ◌∙◌, some, List, map, arith,
  length, replicate, range, ◌+w◌, ◌*w◌, Outcome, ◌>>=◌, expect, ok, panic,
}
use mathlib.Core.Path.{ap₂}
use uefi_bootloader.Api.{ElfSection}
use uefi_bootloader.Modules.{overwrite}
use uefi_bootloader.Context.Kernel.{
  Header, SectionHeader, RegularFile, Elf, read_section, read_sections, set_position, read_buffer,
}
use uefi_bootloader.Context.Kernel.Media.{
  IsFile, bytes_at, length-bytes_at, set_position-eq, read_buffer_at, overwrite_whole,
}

pub bind_assoc {ℓ κ μ} :
    {A : Type ℓ} {B : Type κ} {C : Type μ} (m : Outcome A) (f : A → Outcome B) (g : B → Outcome C)
    → m >>= (λ x. f x >>= g) ≡ (m >>= f) >>= g
bind_assoc (ok a) f g = refl
bind_assoc panic f g = refl

-- The section of a header, its name in the table at `base`, padded where the file ends.
abbrev pub section_of : List ℕ → ℕ → SectionHeader → ElfSection
section_of contents base h = record {
  name = overwrite (replicate 64 0) 0 (bytes_at contents (base + h.sh_name) 64);
  start = h.sh_addr;
  size = h.sh_size;
  flags = h.sh_flags;
}

abbrev pub section_bytes : Elf → List ℕ → Header → ℕ → List ℕ
section_bytes elf contents header i =
    bytes_at contents (header.e_shoff + i * elf.size_of_section_header) elf.size_of_section_header

-- A file with the headers of its sections, one after the other, and with the places of their names.
pub record HasSections (elf : Elf) (contents : List ℕ) (header : Header)
    (headers : ℕ → SectionHeader) : Type 0 where
  pub small : length contents < 2 ^ 64 - 1
  pub inside : header.e_shoff + header.e_shnum * elf.size_of_section_header ≤ length contents
  pub parsed :
      (i : ℕ)
      → i < header.e_shnum
      → elf.section_header (section_bytes elf contents header i) ≡ some (headers i)
  pub name_table : header.e_shstrndx < header.e_shnum
  pub names :
      (i : ℕ)
      → i < header.e_shnum
      → (headers header.e_shstrndx).sh_offset + (headers i).sh_name ≤ length contents

module _ (media : RegularFile) (is_file : IsFile media) (elf : Elf) (contents : List ℕ)
    (header : Header) (headers : ℕ → SectionHeader)
    (has : HasSections elf contents header headers) where
  abbrev pub base : ℕ
  base = (headers header.e_shstrndx).sh_offset

  abbrev pub size : ℕ
  size = elf.size_of_section_header

  -- One header's place in the file.
  header_inside : (i : ℕ) → i < header.e_shnum → header.e_shoff + i * size + size ≤ length contents
  header_inside i lt =
      let whole : header.e_shnum ≡ i + 1 + (header.e_shnum - i - 1) = omega (arith, lt) in
      omega (arith, has.inside, ap (λ (t : ℕ). t * size) whole)

  -- A read of the header `i` into a buffer of its size.
  pub read_header :
      (i : ℕ) (buffer : List ℕ) (f : media.State)
      → i < header.e_shnum
      → length buffer ≡ size
      → is_file.contents f ≡ contents
      → (f' : media.State) × ((set_position media (header.e_shoff +w (i *w size)) f
            >>= read_buffer media buffer)
          ≡ ok (f', section_bytes elf contents header i))
        × (is_file.contents f' ≡ contents)
  read_header i buffer f lt len same =
      let inside = header_inside i lt in
      let p = header.e_shoff + i * size in
      let at : header.e_shoff +w (i *w size) ≡ p = omega (arith, inside, has.small) in
      let small : p < 2 ^ 64 - 1 = omega (arith, inside, has.small) in
      let (f', e, kept) =
        read_buffer_at media is_file buffer f p small (rw same (omega (arith, inside))) in
      let overwritten : overwrite buffer 0 (bytes_at (is_file.contents f) p (length buffer))
          ≡ section_bytes elf contents header i =
        ap₂ (λ c n. overwrite buffer 0 (bytes_at c p n)) same len
        ∙ overwrite_whole buffer (section_bytes elf contents header i)
            (len ∙ sym (length-bytes_at contents p size inside)) in
      let sought : set_position media (header.e_shoff +w (i *w size)) f ≡ ok (is_file.seek f p) =
        ap (λ y. set_position media y f) at ∙ set_position-eq media is_file p f small in
      (
        f',
        ap (λ x. x >>= read_buffer media buffer) sought ∙ e ∙ ap (λ ys. ok (f', ys)) overwritten,
        kept ∙ same,
      )

  pub length-header :
      (i : ℕ) → i < header.e_shnum → length (section_bytes elf contents header i) ≡ size
  length-header i lt =
      length-bytes_at contents (header.e_shoff + i * size) size (header_inside i lt)

  -- The body of the loop, once the header's bytes are there.
  abbrev finish_section : media.State × List ℕ → Outcome (media.State × List ℕ × ElfSection)
  finish_section r = do
    section_header ← expect (elf.section_header r.1)
    f2 ← set_position media (base +w section_header.sh_name) r.0
    name ← read_buffer media (replicate 64 0) f2
    ok (
      name.0,
      r.1,
      record {
        name = name.1;
        start = section_header.sh_addr;
        size = section_header.sh_size;
        flags = section_header.sh_flags;
      },
    )

  finish_section-eq :
      (i : ℕ) (f : media.State)
      → i < header.e_shnum
      → is_file.contents f ≡ contents
      → (f' : media.State) × (finish_section (f, section_bytes elf contents header i)
          ≡ ok (f', section_bytes elf contents header i, section_of contents base (headers i)))
        × (is_file.contents f' ≡ contents)
  finish_section-eq i f lt same =
      let p = base + (headers i).sh_name in
      let small : p < 2 ^ 64 - 1 = omega (arith, has.names i lt, has.small) in
      let at : base +w (headers i).sh_name ≡ p = omega (arith, small) in
      let named =
        read_buffer_at media is_file (replicate 64 0) f p small (rw same (has.names i lt)) in
      let (f', e, kept) = named in
      (
        f',
        rw (has.parsed i lt, at, set_position-eq media is_file p f small, e, same) refl,
        kept ∙ same,
      )

  read_section-eq :
      (i : ℕ) (buffer : List ℕ) (f : media.State)
      → i < header.e_shnum
      → length buffer ≡ size
      → is_file.contents f ≡ contents
      → (f' : media.State) × (read_section media elf header base i buffer f
          ≡ ok (f', section_bytes elf contents header i, section_of contents base (headers i)))
        × (is_file.contents f' ≡ contents)
  unfolding read_section
  read_section-eq i buffer f lt len same =
      let (f1, e1, same1) = read_header i buffer f lt len same in
      let (f2, e2, same2) = finish_section-eq i f1 lt same1 in
      (
        f2,
        bind_assoc (set_position media (header.e_shoff +w (i *w size)) f) (read_buffer media buffer)
              finish_section
            ∙ ap (λ x. x >>= finish_section) e1
            ∙ e2,
        same2,
      )

  pub read_sections-eq :
      (b n : ℕ) (buffer : List ℕ) (f : media.State)
      → b + n ≤ header.e_shnum
      → length buffer ≡ size
      → is_file.contents f ≡ contents
      → (f' : media.State) × (read_sections media elf header base (range b n) buffer f
          ≡ ok (f', map (λ i. section_of contents base (headers i)) (range b n)))
        × (is_file.contents f' ≡ contents)
  unfolding read_sections
  read_sections-eq b zero buffer f h len same = (f, refl, same)
  read_sections-eq b (suc n) buffer f h len same =
      let (f1, e1, same1) = read_section-eq b buffer f (omega (arith, h)) len same in
      let (f2, e2, same2) =
        read_sections-eq (b + 1) n (section_bytes elf contents header b) f1 (omega (arith, h))
          (length-header b (omega (arith, h))) same1 in
      (f2, rw (e1, e2) refl, same2)
