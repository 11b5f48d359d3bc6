-- ===== src/Context/Kernel/Segments.antt =====
-- The loop of `load` of uefi-bootloader/src/kernel.rs over the program headers.
use uefi_bootloader.Prelude.{
  ℕ, ◌+◌, ◌-◌, ◌*◌, ◌^◌, ◌≤◌, ◌<◌, ◌≡◌, refl, sym, ap, ◌∙◌, List, arith, ◌==◌, if◌then◌else◌,
  length, ◌+w◌, ◌*w◌, Outcome, ◌>>=◌, expect, ok,
}
use uefi_bootloader.Modules.{overwrite}
use uefi_bootloader.Arch.Machine.{Machine}
use uefi_bootloader.FrameAllocator.{MemoryTypes}
use uefi_bootloader.FrameAllocator.Source.{BootServices}
use uefi_bootloader.PageAllocator.{ProgramHeader}
use uefi_bootloader.Context.Segment.{BootContext}
use uefi_bootloader.Context.Kernel.{
  Elf, RegularFile, Loader, set_position, read_buffer, load_segment, handle_load_segment,
}
use uefi_bootloader.Context.Kernel.Media.{
  IsFile, bytes_at, length-bytes_at, set_position-eq, read_buffer_at, overwrite_whole,
}
use uefi_bootloader.Context.Kernel.Headers.{bind_assoc}
use uefi_bootloader.Context.Kernel.Program.{HasProgramHeaders}

module _ (media : RegularFile) (is_file : IsFile media) where
  open is_file use {contents, position, seek}

  -- A part of the file, read into a buffer of its size.
  read_part :
      (p n : ℕ) (buffer : List ℕ) (f : media.State)
      → p + n ≤ length (contents f)
      → p < 2 ^ 64 - 1
      → length buffer ≡ n
      → (f' : media.State) × (set_position media p f >>= read_buffer media buffer
          ≡ ok (f', bytes_at (contents f) p n))
        × (contents f' ≡ contents f)
  read_part p n buffer f inside small len =
      let (f', e, kept) = read_buffer_at media is_file buffer f p small (omega (arith, inside)) in
      let whole : overwrite buffer 0 (bytes_at (contents f) p (length buffer))
          ≡ bytes_at (contents f) p n =
        ap (λ m. overwrite buffer 0 (bytes_at (contents f) p m)) len
        ∙ overwrite_whole buffer (bytes_at (contents f) p n)
            (len ∙ sym (length-bytes_at (contents f) p n inside)) in
      (
        f',
        ap (λ x. x >>= read_buffer media buffer) (set_position-eq media is_file p f small)
            ∙ e
            ∙ ap (λ ys. ok (f', ys)) whole,
        kept,
      )

  module _ (elf : Elf) (machine : Machine) (services : BootServices) (types : MemoryTypes) where
    -- What is done with a program header.
    abbrev pub handle :
        ProgramHeader
        → Loader media elf machine services types
        → Outcome (Loader media elf machine services types)
    handle h l =
        if h.p_memsz == 0
        then ok l
        else (if h.p_type == 1
            then handle_load_segment media elf machine services types h l
            else ok l)

    -- The body of the loop, once the header's bytes are there.
    abbrev finish :
        BootContext machine services
        → media.State × List ℕ
        → Outcome (Loader media elf machine services types × List ℕ)
    finish c r = do
      h ← expect (elf.program_header r.1)
      after ← handle h (record { file = r.0; context = c })
      ok (after, r.1)

    module _ (bytes : List ℕ) (offset n : ℕ) (headers : ℕ → ProgramHeader)
        (has : HasProgramHeaders elf bytes offset n headers) where
      abbrev pub size : ℕ
      size = elf.size_of_program_header

      abbrev pub header_bytes : ℕ → List ℕ
      header_bytes i = bytes_at bytes (offset + i * size) size

      header_inside : (i : ℕ) → i < n → offset + i * size + size ≤ length bytes
      header_inside i lt =
          let whole : n ≡ i + 1 + (n - i - 1) = omega (arith, lt) in
          omega (arith, has.inside, ap (λ (t : ℕ). t * size) whole)

      pub length-header_bytes : (i : ℕ) → i < n → length (header_bytes i) ≡ size
      length-header_bytes i lt = length-bytes_at bytes (offset + i * size) size (header_inside i lt)

      -- The body reads the header and does what is to be done with it.
      pub load_segment-eq :
          (i : ℕ) (buffer : List ℕ) (l : Loader media elf machine services types)
          → i < n
          → length buffer ≡ size
          → contents l.file ≡ bytes
          → (f : media.State) × (load_segment media elf machine services types offset i buffer l
              ≡ handle (headers i) (record { file = f; context = l.context }) >>= λ after.
                  ok (after, header_bytes i))
            × (contents f ≡ bytes)
      unfolding load_segment
      load_segment-eq i buffer l lt len same =
          let inside = header_inside i lt in
          let p = offset + i * size in
          let at : offset +w (i *w size) ≡ p = omega (arith, inside, has.small) in
          let (f, e, kept) =
            read_part p size buffer l.file (rw same inside) (omega (arith, inside, has.small))
              len in
          (
            f,
            bind_assoc (set_position media (offset +w (i *w size)) l.file)
                  (read_buffer media buffer) (finish l.context)
                ∙ ap
                    (λ y.
                      (set_position media y l.file >>= read_buffer media buffer)
                      >>= finish l.context)
                    at
                ∙ ap (λ x. x >>= finish l.context) e
                ∙ ap (λ b. finish l.context (f, bytes_at b p size)) same
                ∙ rw (has.parsed i lt) refl,
            kept ∙ same,
          )
