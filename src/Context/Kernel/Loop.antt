-- ===== src/Context/Kernel/Loop.antt =====
-- The loop of `load` of uefi-bootloader/src/kernel.rs over the program headers: every segment in its
-- place.
use uefi_bootloader.Prelude.{
  ℕ, zero, suc, ◌+◌, ◌-◌, ◌^◌, ◌≤◌, ◌<◌, ◌≡◌, refl, sym, ap, ◌∙◌, ◌≢◌, ◌⊎◌, inl, inr, List, [], ◌∷◌,
  map, arith, length, range, Outcome, ok,
}
use mathlib.Core.Path.{subst}
use uefi_bootloader.Memory.Address.{Address}
use uefi_bootloader.Arch.Machine.{Machine, IsMachine, PageView, IsPageMap}
use uefi_bootloader.FrameAllocator.{MemoryTypes}
use uefi_bootloader.FrameAllocator.Source.{IsQueue, BootServices, uefi}
use uefi_bootloader.PageAllocator.{ProgramHeader}
use uefi_bootloader.PageAllocator.Slots.{is_used, slot_of}
use uefi_bootloader.Context.Segment.{BootContext}
use uefi_bootloader.Context.Segment.Pages.{offset_of}
use uefi_bootloader.Context.Segment.Loadable.{IsLoadable}
use uefi_bootloader.Context.Kernel.{Elf, RegularFile, Loader, load_segments, handle_load_segment}
use uefi_bootloader.Context.Kernel.Media.{IsFile}
use uefi_bootloader.Context.Kernel.Load.{HoldsSegment, Loads, handle_load_segment-Loads}
use uefi_bootloader.Context.Kernel.Program.{
  Placed, Every, page_of, IsOutside, IsApart, HasProgramHeaders, Turns, skipped, loaded, done,
  InPlace, LoadsAll,
}
use uefi_bootloader.Context.Kernel.Segments.{
  handle, load_segment-eq, header_bytes, length-header_bytes,
}

Every-map :
    (P Q : Placed → Type 0) (ps : List Placed)
    → ((p : Placed) → P p → Q p)
    → Every P ps
    → Every Q ps
Every-map P Q [] f h = tt
Every-map P Q (p ∷ ps) f h = (f p h.0, Every-map P Q ps f h.1)

module _ (machine : Machine) (is_machine : IsMachine machine) (services : BootServices)
    (q : IsQueue (uefi machine.physical_space services)) (v : PageView machine)
    (law : IsPageMap machine (uefi machine.physical_space services) q v) (media : RegularFile)
    (is_file : IsFile media) (elf : Elf) (types : MemoryTypes) (bytes : List ℕ)
    (Ready : BootContext machine services → Type 0) where
  open is_file use {contents}
  open v use {InReach}

  abbrev Loaded :
      List Placed
      → BootContext machine services
      → Outcome (Loader media elf machine services types)
      → Type 0
  Loaded = LoadsAll machine is_machine services q v law media is_file elf types bytes Ready

  -- A segment that is apart from those that are loaded after it stays in its place.
  stays :
      (p : Placed) (ps : List Placed) (c : BootContext machine services)
      (r : Outcome (Loader media elf machine services types)) (a : Loaded ps c r)
      → Every (IsApart p) ps
      → InPlace machine is_machine services q v law bytes c p
      → InPlace machine is_machine services q v law bytes a.after.context p
  stays p ps c r a apart h =
      let same : (k : ℕ)
          → k < p.segment.p_memsz
          → a.after.context.memory (p.pointer + offset_of p.segment + k)
            ≡ c.memory (p.pointer + offset_of p.segment + k) =
        λ k lt. a.elsewhere (p.pointer + offset_of p.segment + k) (
          Every-map (IsApart p) (IsOutside (p.pointer + offset_of p.segment + k)) ps
            (λ b o. o.slices k lt) apart) in
      record {
        fits = h.fits;
        holds = record {
          from_file = λ k lt. same k (omega (arith, lt, h.fits)) ∙ h.holds.from_file k lt;
          zeros = λ k ge lt. same k lt ∙ h.holds.zeros k ge lt;
        };
        reach = h.reach;
        bytes = λ k lt.
            a.others (page_of p.segment k) (h.reach k lt) (
              Every-map (IsApart p)
                (λ b. (j : ℕ) → j < b.segment.p_memsz → page_of b.segment j ≢ page_of p.segment k)
                ps (λ b o j less. o.pages k j lt less) apart)
            ∙ h.bytes k lt;
        marked = λ k lt. a.still_used (slot_of (p.segment.p_vaddr + k)) (h.marked k lt);
      }

  -- What a loaded segment leaves: the segment in its place.
  place :
      (segment : ProgramHeader) (l : Loader media elf machine services types) (pointer : Address)
      (firmware : services.State) (r : Outcome (Loader media elf machine services types))
      (h : IsLoadable machine is_machine services q v law segment l.context pointer firmware)
      (s : Loads machine is_machine services q v law media is_file elf types segment l pointer r)
      → segment.p_filesz ≤ segment.p_memsz
      → contents l.file ≡ bytes
      → InPlace machine is_machine services q v law bytes s.after.context
          (record { segment = segment; pointer = pointer })
  place segment l pointer firmware r h s fits same = record {
    fits = fits;
    holds =
        subst (λ b. HoldsSegment b segment (pointer + offset_of segment) s.after.context.memory)
          same s.holds;
    reach = λ k lt. h.reach (page_of segment k) (omega (arith, lt)) (omega (arith, lt));
    bytes = λ k lt.
        ap (λ c. v.entry_of c.mapper (page_of segment k)) s.same_context ∙ s.mapping.bytes k lt;
    marked = λ k lt.
        ap (λ c. is_used c.page_allocator (slot_of (segment.p_vaddr + k))) s.same_context
        ∙ s.mapping.marked k lt;
  }

  -- A segment, and then the rest.
  first :
      (segment : ProgramHeader) (l : Loader media elf machine services types) (pointer : Address)
      (firmware : services.State) (r r' : Outcome (Loader media elf machine services types))
      (ps : List Placed)
      (h : IsLoadable machine is_machine services q v law segment l.context pointer firmware)
      (s : Loads machine is_machine services q v law media is_file elf types segment l pointer r)
      → segment.p_filesz ≤ segment.p_memsz
      → contents l.file ≡ bytes
      → Every (IsApart (record { segment = segment; pointer = pointer })) ps
      → Loaded ps s.after.context r'
      → Loaded (record { segment = segment; pointer = pointer } ∷ ps) l.context r'
  first segment l pointer firmware r r' ps h s fits same apart a =
      let p : Placed = record { segment = segment; pointer = pointer } in
      record {
        after = a.after;
        returns = a.returns;
        same_file = a.same_file;
        ready = a.ready;
        in_place = (
          stays p ps s.after.context r' a apart (place segment l pointer firmware r h s fits same),
          a.in_place,
        );
        elsewhere = λ x o. a.elsewhere x o.1 ∙ s.elsewhere x o.0;
        others = λ page reach o.
            a.others page reach o.1
            ∙ ap (λ c. v.entry_of c.mapper page) s.same_context
            ∙ s.mapping.others page reach o.0;
        still_used = λ i used.
            a.still_used i
              (ap (λ c. is_used c.page_allocator i) s.same_context ∙ s.mapping.still_used i used);
      }

  handle_skipped :
      (segment : ProgramHeader) (l : Loader media elf machine services types)
      → (segment.p_memsz ≡ 0) ⊎ (segment.p_type ≢ 1)
      → handle media is_file elf machine services types segment l ≡ ok l
  handle_skipped segment l h = ground (arith, h)

  handle_loaded :
      (segment : ProgramHeader) (l : Loader media elf machine services types)
      → 0 < segment.p_memsz
      → segment.p_type ≡ 1
      → handle media is_file elf machine services types segment l
        ≡ handle_load_segment media elf machine services types segment l
  handle_loaded segment l pos load = ground (arith, pos, load)

  loads :
      (segment : ProgramHeader) (l : Loader media elf machine services types) (pointer : Address)
      (firmware : services.State)
      → IsLoadable machine is_machine services q v law segment l.context pointer firmware
      → length bytes < 2 ^ 64 - 1
      → segment.p_filesz ≤ segment.p_memsz
      → segment.p_offset + segment.p_filesz ≤ length bytes
      → contents l.file ≡ bytes
      → Loads machine is_machine services q v law media is_file elf types segment l pointer
          (handle_load_segment media elf machine services types segment l)
  loads segment l pointer firmware h small fits inside same =
      elim (handle_load_segment-Loads machine is_machine services q v law media is_file elf types
        segment l pointer firmware h (omega (arith, small, inside)) (rw same inside)) [
          | inl s ↦ s.1
          | inr s ↦ absurd (omega (arith, s.0, fits))
        ]

  module _ (offset n : ℕ) (headers : ℕ → ProgramHeader)
      (has : HasProgramHeaders elf bytes offset n headers) where
    pub load_segments-LoadsAll :
        (b m : ℕ) (buffer : List ℕ) (l : Loader media elf machine services types) (ps : List Placed)
        → b + m ≤ n
        → length buffer ≡ elf.size_of_program_header
        → contents l.file ≡ bytes
        → Turns machine is_machine services q v law bytes Ready
            (map headers (range b m))
            l.context
            ps
        → LoadsAll machine is_machine services q v law media is_file elf types bytes Ready ps
            l.context
            (load_segments media elf machine services types offset (range b m) buffer l)
    unfolding load_segments
    load_segments-LoadsAll b zero buffer l ps h len same (done ready) = record {
      after = l;
      returns = refl;
      same_file = same;
      ready = ready;
      in_place = tt;
      elsewhere = λ x o. refl;
      others = λ page reach o. refl;
      still_used = λ i used. used;
    }
    load_segments-LoadsAll b (suc m) buffer l ps h len same (skipped why rest) =
        let (f, e, same') =
          load_segment-eq media is_file elf machine services types bytes offset n headers has b
            buffer l (omega (arith, h)) len same in
        let l' : Loader media elf machine services types = record {
          file = f;
          context = l.context;
        } in
        rw (e, handle_skipped (headers b) l' why)
          (load_segments-LoadsAll (b + 1) m
            (header_bytes media is_file elf machine services types bytes offset n headers has b) l'
            ps (omega (arith, h))
            (length-header_bytes media is_file elf machine services types bytes offset n headers has
              b (omega (arith, h)))
            same' rest)
    load_segments-LoadsAll b (suc m) buffer l _ h len same
          (loaded {ps = ps} {pointer = pointer} {firmware = firmware} ty able fits inside apart
            rest) =
        let (f, e, same') =
          load_segment-eq media is_file elf machine services types bytes offset n headers has b
            buffer l (omega (arith, h)) len same in
        let l' : Loader media elf machine services types = record {
          file = f;
          context = l.context;
        } in
        let s = loads (headers b) l' pointer firmware able has.small fits inside same' in
        let next = rest s.mapping.context _ s.after.context.memory s.mapping.returns in
        let a =
          load_segments-LoadsAll (b + 1) m
            (header_bytes media is_file elf machine services types bytes offset n headers has b)
            s.after ps (omega (arith, h))
            (length-header_bytes media is_file elf machine services types bytes offset n headers has
              b (omega (arith, h)))
            (s.same_file ∙ same')
            (subst
              (λ c.
                Turns machine is_machine services q v law bytes Ready
                  (map headers (range (b + 1) m)) c ps)
              (sym s.same_context) next) in
        rw (e, handle_loaded (headers b) l' able.not_empty ty, s.returns)
          (first (headers b) l' pointer firmware _ _ ps able s fits same' apart a)
