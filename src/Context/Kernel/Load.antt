-- ===== src/Context/Kernel/Load.antt =====
-- `handle_load_segment` of uefi-bootloader/src/kernel.rs: the bytes of a segment in memory.
use uefi_bootloader.Prelude.{
  ℕ, ◌+◌, ◌-◌, ◌^◌, ◌≤◌, ◌<◌, ◌≡◌, refl, sym, ap, ◌∙◌, ◌⊎◌, inl, inr, true, false, ◌&&◌, Option,
  some, List, arith, ltb, leb, if◌then◌else◌, leb→le, leb→lt, Bool-cases, length, get_or, take,
  drop, Outcome, ok, panic,
}
use mathlib.Core.Path.{subst, fun_ext}
use uefi_bootloader.Memory.Address.{Address}
use uefi_bootloader.Arch.Machine.{Machine, IsMachine, PageView, IsPageMap}
use uefi_bootloader.FrameAllocator.{MemoryTypes}
use uefi_bootloader.FrameAllocator.Source.{IsQueue, BootServices, uefi}
use uefi_bootloader.PageAllocator.{ProgramHeader}
use uefi_bootloader.Context.Segment.{Memory, write_bytes, map_segment}
use uefi_bootloader.Context.Segment.Pages.{offset_of}
use uefi_bootloader.Context.Segment.Loadable.{Mapping, IsLoadable}
use uefi_bootloader.Context.Segment.Maps.{map_segment-Mapping}
use uefi_bootloader.Context.Kernel.{RegularFile, Elf, Loader, handle_load_segment}
use uefi_bootloader.Context.Kernel.Media.{
  IsFile, bytes_at, length-bytes_at, get_or-bytes_at, take-bytes_at, set_position-eq,
}

-- The memory of a segment at `start`: `filesz` bytes of the file from `offset` on, and zeros.
pub record HoldsSegment (contents : List ℕ) (segment : ProgramHeader) (start : Address)
    (memory : Memory) : Type 0 where
  pub from_file :
      (k : ℕ) → k < segment.p_filesz → memory (start + k) ≡ get_or contents (segment.p_offset + k) 0
  pub zeros : (k : ℕ) → segment.p_filesz ≤ k → k < segment.p_memsz → memory (start + k) ≡ 0

module _ (contents : List ℕ) (segment : ProgramHeader) (pointer : Address) (memory : Memory) where
  abbrev start : Address
  start = pointer + offset_of segment

  abbrev cleared : Memory
  cleared x =
      if leb pointer x && ltb x (pointer + (offset_of segment + segment.p_memsz))
      then 0
      else memory x

  abbrev loaded : Memory
  loaded = write_bytes cleared start (bytes_at contents segment.p_offset segment.p_filesz)

  module _ (fits : segment.p_filesz ≤ segment.p_memsz)
      (whole : segment.p_offset + segment.p_filesz ≤ length contents) where
    loaded-HoldsSegment : HoldsSegment contents segment start loaded
    loaded-HoldsSegment =
        let size = length-bytes_at contents segment.p_offset segment.p_filesz whole in
        record {
          from_file = λ k lt.
              let inside : (leb start (start + k)
                    && ltb (start + k)
                        (start + length (bytes_at contents segment.p_offset segment.p_filesz)))
                  ≡ true =
                ground (arith, size, lt) in
              let at : start + k - start ≡ k = omega arith in
              rw (inside, at) (get_or-bytes_at contents segment.p_offset segment.p_filesz k 0 lt);
          zeros = λ k ge lt.
              let outside : (leb start (start + k)
                    && ltb (start + k)
                        (start + length (bytes_at contents segment.p_offset segment.p_filesz)))
                  ≡ false =
                ground (arith, size, ge) in
              let inside : (leb pointer (start + k)
                    && ltb (start + k) (pointer + (offset_of segment + segment.p_memsz)))
                  ≡ true =
                ground (arith, lt) in
              rw (outside, inside) refl;
        }

    loaded_elsewhere :
        (x : Address) → (x < pointer) ⊎ (start + segment.p_memsz ≤ x) → loaded x ≡ memory x
    loaded_elsewhere x h =
        let size = length-bytes_at contents segment.p_offset segment.p_filesz whole in
        let outside : (leb start x
              && ltb x (start + length (bytes_at contents segment.p_offset segment.p_filesz)))
            ≡ false =
          elim h [
            | inl l ↦ ground (arith, size, l, fits)
            | inr g ↦ ground (arith, size, g, fits)
          ] in
        let outside' : (leb pointer x && ltb x (pointer + (offset_of segment + segment.p_memsz)))
            ≡ false =
          elim h [ inl l ↦ ground (arith, l) | inr g ↦ ground (arith, g) ] in
        rw (outside, outside') refl

module _ (machine : Machine) (is_machine : IsMachine machine) (services : BootServices)
    (q : IsQueue (uefi machine.physical_space services)) (v : PageView machine)
    (law : IsPageMap machine (uefi machine.physical_space services) q v) (media : RegularFile)
    (is_file : IsFile media) (elf : Elf) (types : MemoryTypes) where
  open is_file use {contents, position, seek}

  -- The segment is mapped, its memory holds its bytes, and other memory is as before.
  pub record Loads (segment : ProgramHeader) (l : Loader media elf machine services types)
      (pointer : Address) (r : Outcome (Loader media elf machine services types)) : Type 0 where
    pub after : Loader media elf machine services types
    pub returns : r ≡ ok after
    pub mapping :
        Mapping machine is_machine services q v law segment l.context pointer
          (map_segment machine services segment l.context)
    pub same_context : after.context ≡ record mapping.context { memory = after.context.memory }
    pub holds :
        HoldsSegment (contents l.file) segment (pointer + offset_of segment) after.context.memory
    pub elsewhere :
        (x : Address)
        → (x < pointer) ⊎ (pointer + offset_of segment + segment.p_memsz ≤ x)
        → after.context.memory x ≡ l.context.memory x
    pub same_file : contents after.file ≡ contents l.file

  module _ (segment : ProgramHeader) (l : Loader media elf machine services types)
      (pointer : Address)
      (m : Mapping machine is_machine services q v law segment l.context pointer
        (map_segment machine services segment l.context))
      (place : segment.p_offset < 2 ^ 64 - 1)
      (whole : segment.p_offset + segment.p_filesz ≤ length (contents l.file)) where
    abbrev read_back : media.State × Option (List ℕ)
    read_back = media.read (seek l.file segment.p_offset) segment.p_filesz

    abbrev bytes : List ℕ
    bytes = bytes_at (contents l.file) segment.p_offset segment.p_filesz

    read_back_eq : read_back.1 ≡ some bytes
    read_back_eq =
        is_file.reads (seek l.file segment.p_offset) segment.p_filesz (
          rw
            (
              is_file.position-seek l.file segment.p_offset place,
              is_file.contents-seek l.file segment.p_offset place,
            )
            (omega (arith, whole)))
        ∙ ap (λ p. some (take segment.p_filesz (drop p (contents (seek l.file segment.p_offset)))))
            (is_file.position-seek l.file segment.p_offset place)
        ∙ ap (λ c. some (bytes_at c segment.p_offset segment.p_filesz))
            (is_file.contents-seek l.file segment.p_offset place)

    memory_eq :
        write_bytes m.context.memory (pointer + offset_of segment) bytes
        ≡ loaded (contents l.file) segment pointer l.context.memory
    memory_eq = ap (λ k. write_bytes k (pointer + offset_of segment) bytes) (fun_ext m.memory)

    load_returns :
        segment.p_filesz ≤ segment.p_memsz
        → handle_load_segment media elf machine services types segment l
          ≡ ok (record {
            file = read_back.0;
            context = record m.context {
              memory = write_bytes m.context.memory (pointer + offset_of segment) bytes;
            };
          })
    unfolding handle_load_segment
    load_returns fits =
        let le : leb segment.p_filesz segment.p_memsz ≡ true = ground (arith, fits) in
        let kept = take-bytes_at (contents l.file) segment.p_offset segment.p_filesz in
        rw
          (
            m.returns,
            set_position-eq media is_file segment.p_offset l.file place,
            le,
            read_back_eq,
            kept,
          )
          refl

    load_panics :
        segment.p_memsz < segment.p_filesz
        → handle_load_segment media elf machine services types segment l ≡ panic
    unfolding handle_load_segment
    load_panics more =
        let gt : leb segment.p_filesz segment.p_memsz ≡ false = ground (arith, more) in
        rw (m.returns, set_position-eq media is_file segment.p_offset l.file place, gt) refl

    load_Loads :
        segment.p_filesz ≤ segment.p_memsz
        → Loads segment l pointer (handle_load_segment media elf machine services types segment l)
    load_Loads fits = record {
      after = record {
        file = read_back.0;
        context = record m.context {
          memory = write_bytes m.context.memory (pointer + offset_of segment) bytes;
        };
      };
      returns = load_returns fits;
      mapping = m;
      same_context = refl;
      holds =
          subst (HoldsSegment (contents l.file) segment (pointer + offset_of segment))
            (sym memory_eq)
            (loaded-HoldsSegment (contents l.file) segment pointer l.context.memory fits whole);
      elsewhere = λ x h.
          ap (λ k. k x) memory_eq
          ∙ loaded_elsewhere (contents l.file) segment pointer l.context.memory fits whole x h;
      same_file =
          is_file.contents-read (seek l.file segment.p_offset) segment.p_filesz
          ∙ is_file.contents-seek l.file segment.p_offset place;
    }

  -- `handle_load_segment`, on a segment that is loadable and whose bytes are in the file: if the
  -- segment's size in memory is at least that in the file, it returns, the segment is mapped, its
  -- memory holds the bytes of the file and zeros after them, and memory outside the slice is as
  -- before; if it is less, it panics.
  pub handle_load_segment-Loads :
      (segment : ProgramHeader) (l : Loader media elf machine services types) (pointer : Address)
      (firmware : services.State)
      → IsLoadable machine is_machine services q v law segment l.context pointer firmware
      → segment.p_offset < 2 ^ 64 - 1
      → segment.p_offset + segment.p_filesz ≤ length (contents l.file)
      → ((segment.p_filesz ≤ segment.p_memsz)
          × Loads segment l pointer
              (handle_load_segment media elf machine services types segment l))
        ⊎ ((segment.p_memsz < segment.p_filesz)
            × (handle_load_segment media elf machine services types segment l ≡ panic))
  handle_load_segment-Loads segment l pointer firmware h place whole =
      let m =
        map_segment-Mapping machine is_machine services q v law segment l.context pointer firmware
          h in
      elim (Bool-cases (leb segment.p_filesz segment.p_memsz)) [
        | inl e ↦
            let fits = leb→le segment.p_filesz segment.p_memsz e in
            inl (fits, load_Loads segment l pointer m place whole fits)
        | inr e ↦
            let more = leb→lt segment.p_filesz segment.p_memsz e in
            inr (more, load_panics segment l pointer m place whole more)
      ]
