-- ===== src/Context/Mappings/SetUp.antt =====
-- `set_up_mappings` of uefi-bootloader/src/mappings.rs as a whole.
use uefi_bootloader.Prelude.{
  ℕ, ◌+◌, ◌*◌, ◌/◌, ◌^◌, ◌≤◌, ◌<◌, ◌≡◌, refl, sym, ap, ◌∙◌, ◌≢◌, inl, inr, true, false, Option,
  none, some, arith, ltb, ◌==◌, ==→≡, ==→≢, Bool-cases, length, Outcome, ok,
}
use uefi_bootloader.Context.Zip.{get_elem?-some}
use mathlib.Core.Path.{subst, ap₂}
use uefi_bootloader.Api.{FrameBuffer}
use uefi_bootloader.Memory.Address.{Address, new_canonical}
use uefi_bootloader.Arch.Machine.{Machine, IsMachine, PageView, Mapped, SetsUp, IsPageMap}
use uefi_bootloader.FrameAllocator.Source.{FrameAllocator, IsQueue}
use uefi_bootloader.PageAllocator.Slots.{is_used}
use uefi_bootloader.Context.{RuntimeContext}
use uefi_bootloader.Context.Loops.{entry_after}
use uefi_bootloader.Context.Mappings.{
  stack_flags, map_stack, map_frame_buffer, map_jump, set_up_mappings, map_optional_frame_buffer,
}
use uefi_bootloader.Memory.Chunk.{Chunk, containing_address, start_address}
use uefi_bootloader.Context.Mappings.Frames.{
  stack_frame, stack_frame_at, stack_frame_guard, stack_frame_elsewhere, buffer_frame,
  buffer_frame_at, buffer_frame_elsewhere,
}
use uefi_bootloader.Context.Mappings.Stack.{Stacked, map_stack-Stacked}
use uefi_bootloader.Context.Mappings.Buffer.{pages_before_last, Buffered, map_frame_buffer-Buffered}
use uefi_bootloader.Memory.Chunk.Laws.{start_address_below}
use uefi_bootloader.FrameAllocator.Draw.{length-Drops}
use uefi_bootloader.Memory.Chunk as Chunks
use uefi_bootloader.Memory.Chunk.Laws as ChunkLaws
use uefi_bootloader.Context.Mappings.Ready.{IsReady, SetUp}

module _ (machine : Machine) (is_machine : IsMachine machine) (a : FrameAllocator) (q : IsQueue a)
    (v : PageView machine) (law : IsPageMap machine a q v) where
  open q use {left}
  open v use {Entry, entry_of, leaf, InReach, IsOpen}
  open machine use {virtual_space, physical_space, Mapper}

  -- One of two free slots is still free after another one was taken.
  still_free :
      (c : RuntimeContext machine a) {r : Outcome (RuntimeContext machine a × Chunk)}
      (s : Stacked machine is_machine a q v law c r) (i j : ℕ)
      → is_used c.page_allocator i ≡ false
      → is_used c.page_allocator j ≡ false
      → i < 256
      → j < 256
      → i ≢ j
      → (k : ℕ) × (k < 256) × (is_used s.context.page_allocator k ≡ false)
  still_free c s i j fi fj li lj differ = elim (Bool-cases (i == s.slot)) [
    | inl e ↦ let same = ==→≡ i s.slot e in (j, lj, s.others j (λ z. differ (same ∙ sym z)) ∙ fj)
    | inr e ↦ (i, li, s.others i (==→≢ i s.slot e) ∙ fi)
  ]

  -- The last stage: the code of the context switch.
  jumps :
      (jump_to_kernel : ℕ) (c : RuntimeContext machine a)
      → jump_to_kernel < 2 ^ 47
      → v.Valid a q c.mapper c.frame_allocator
      → IsOpen (entry_of c.mapper (jump_to_kernel / 4096))
      → 3 ≤ length (left c.frame_allocator)
      → (k : Mapped machine a q v c.mapper
          (jump_to_kernel / 4096)
          (jump_to_kernel / 4096)
          (machine.present machine.no_flags true)
          c.frame_allocator
          (machine.map_page a c.mapper
            (jump_to_kernel / 4096)
            (jump_to_kernel / 4096)
            (machine.present machine.no_flags true)
            c.frame_allocator))
        × (map_jump machine a jump_to_kernel c
            ≡ ok (record c { frame_allocator = k.after; mapper = k.mapper }))
  unfolding map_jump containing_address new_canonical
  jumps jump_to_kernel c low h open' n =
      let page = jump_to_kernel / 4096 in
      let k =
        law.maps c.mapper page page (machine.present machine.no_flags true) c.frame_allocator h
          (law.low_InReach page (omega (arith, low))) open' n in
      let kept_virtual : virtual_space.canonicalize jump_to_kernel ≡ jump_to_kernel =
        virtual_space.canonicalize_below jump_to_kernel
          (omega (arith, low, is_machine.virtual_limit)) in
      let kept_physical : physical_space.canonicalize jump_to_kernel ≡ jump_to_kernel =
        physical_space.canonicalize_below jump_to_kernel
          (omega (arith, low, is_machine.physical_limit)) in
      (k, rw (kept_virtual, kept_physical, k.returns) refl)

  -- The pages of the slots that are free after the stack is mapped.
  open_slots :
      (jump_to_kernel : ℕ) (c : RuntimeContext machine a) (fb : FrameBuffer) (i j : ℕ)
      (ready : IsReady machine is_machine a q v law jump_to_kernel c fb i j)
      {r : Outcome (RuntimeContext machine a × Chunk)}
      (s : Stacked machine is_machine a q v law c r) (p : Chunk)
      → InReach p
      → is_used s.context.page_allocator (p / 2 ^ 27) ≡ false
      → IsOpen (entry_of s.context.mapper p)
  open_slots jump_to_kernel c fb i j ready s p reach free =
      let apart : p / 2 ^ 27 ≢ s.slot =
        λ e. cc (s.marked, free, ap (is_used s.context.page_allocator) e) in
      let same : entry_of s.context.mapper p ≡ entry_of c.mapper p =
        s.entries p reach
        ∙ ap (λ o. entry_after machine a q v law o (stack_flags machine) (entry_of c.mapper p))
            (stack_frame_elsewhere s.slot s.frames s.many p apart) in
      subst IsOpen (sym same) (ready.open_slots p reach (sym (s.others (p / 2 ^ 27) apart) ∙ free))

  module _ (jump_to_kernel : ℕ) (c : RuntimeContext machine a) (fb : FrameBuffer) (i j : ℕ)
      (ready : IsReady machine is_machine a q v law jump_to_kernel c fb i j)
      {r : Outcome (RuntimeContext machine a × Chunk)}
      (s : Stacked machine is_machine a q v law c r)
      {r' : Outcome (RuntimeContext machine a × FrameBuffer)}
      (b : Buffered machine is_machine a q v law s.context fb r') where
    abbrev flags : machine.PteFlags
    flags = stack_flags machine

    abbrev after_stack : Chunk → Entry
    after_stack p =
        entry_after machine a q v law (stack_frame s.slot s.frames p) flags (entry_of c.mapper p)

    -- The entry of a page before the last stage.
    before_jump :
        (p : Chunk)
        → InReach p
        → entry_of b.context.mapper p
          ≡ entry_after machine a q v law (buffer_frame b.slot fb p) flags (after_stack p)
    before_jump p h =
        b.entries p h
        ∙ ap (entry_after machine a q v law (buffer_frame b.slot fb p) flags) (s.entries p h)

    slots_differ : s.slot ≢ b.slot
    slots_differ e = cc (s.marked, b.was_free, ap (is_used s.context.page_allocator) e)

    buffer_was_free : is_used c.page_allocator b.slot ≡ false
    buffer_was_free = sym (s.others b.slot (λ z. slots_differ (sym z))) ∙ b.was_free

    jump_elsewhere :
        (slot : ℕ) → is_used c.page_allocator slot ≡ false → jump_to_kernel / 2 ^ 39 ≢ slot
    jump_elsewhere slot free e = cc (ready.jump_used, free, ap (is_used c.page_allocator) e)

    entry_by :
        (p : Chunk) (o o' : Option Chunk)
        → InReach p
        → buffer_frame b.slot fb p ≡ o
        → stack_frame s.slot s.frames p ≡ o'
        → entry_of b.context.mapper p
          ≡ entry_after machine a q v law o flags
              (entry_after machine a q v law o' flags (entry_of c.mapper p))
    entry_by p o o' h e e' =
        before_jump p h
        ∙ ap₂
            (λ x y.
              entry_after machine a q v law x flags
                (entry_after machine a q v law y flags (entry_of c.mapper p)))
            e e'

    abbrev page : Chunk
    page = jump_to_kernel / 4096

    abbrev jump_flags : machine.PteFlags
    jump_flags = machine.present machine.no_flags true

    jump_stack : page / 2 ^ 27 ≢ s.slot
    jump_stack e = jump_elsewhere s.slot s.was_free (omega (arith, e))

    jump_buffer : page / 2 ^ 27 ≢ b.slot
    jump_buffer e = jump_elsewhere b.slot buffer_was_free (omega (arith, e))

    open_jump : IsOpen (entry_of b.context.mapper page)
    open_jump =
        let h = law.low_InReach page (omega (arith, ready.jump_low)) in
        subst IsOpen
          (sym (
            entry_by page none none h
              (buffer_frame_elsewhere b.slot fb ready.is_buffer page jump_buffer)
              (stack_frame_elsewhere s.slot s.frames s.many page jump_stack)))
          ready.open_jump

    module _ {r'' : Outcome (Mapper × a.State)}
        (k : Mapped machine a q v b.context.mapper page page jump_flags b.context.frame_allocator
          r'')
        (u : SetsUp machine a q v k.mapper k.after
          (machine.set_up_arch_specific_mappings k.mapper)) where
      abbrev final : RuntimeContext machine a
      final = record {
        page_allocator = b.context.page_allocator;
        frame_allocator = k.after;
        mapper = u.set_up;
      }

      not_jump :
          (p : Chunk) → InReach p → p ≢ page → entry_of final.mapper p ≡ entry_of b.context.mapper p
      not_jump p h ne =
          let apart : (p == page) ≡ false = ground (arith, ne) in
          u.entries p h ∙ k.entries p h ∙ rw apart refl

      the_jump : entry_of final.mapper page ≡ leaf page jump_flags
      the_jump =
          let h = law.low_InReach page (omega (arith, ready.jump_low)) in
          let self : (page == page) ≡ true = ground arith in
          u.entries page h ∙ k.entries page h ∙ rw self refl

      made :
          (ra : Outcome (RuntimeContext machine a × Option FrameBuffer × Address))
          → ra
            ≡ ok (final, some (record fb { virt = b.slot * 2 ^ 39 }), s.slot * 2 ^ 39 + 18 * 4096)
          → SetUp machine is_machine a q v law jump_to_kernel c fb ra
      made ra e = record {
        context = final;
        stack_slot = s.slot;
        buffer_slot = b.slot;
        frames = s.frames;
        returns = e;
        stack_was_free = s.was_free;
        buffer_was_free = buffer_was_free;
        stack_low = s.low;
        buffer_low = b.low;
        differ = slots_differ;
        from_queue = s.from_queue;
        valid = u.valid;
        guard_page =
            let p = s.slot * 2 ^ 27 in
            let h = law.low_InReach p (omega (arith, s.low)) in
            not_jump p h (λ z. jump_stack (omega (arith, z)))
            ∙ entry_by p none none h
                (buffer_frame_elsewhere b.slot fb ready.is_buffer p
                  (λ z. slots_differ (omega (arith, z))))
                (stack_frame_guard s.slot s.frames s.many);
        stack = λ n lt.
            let p = s.slot * 2 ^ 27 + 1 + n in
            let h = law.low_InReach p (omega (arith, s.low, lt)) in
            let f = get_elem?-some s.frames n (omega (arith, lt, s.many)) in
            (
              f.0,
              f.1,
              not_jump p h (λ z. jump_stack (omega (arith, z, lt)))
                  ∙ entry_by p none (some f.0) h
                      (buffer_frame_elsewhere b.slot fb ready.is_buffer p
                        (λ z. slots_differ (omega (arith, z, lt))))
                      (stack_frame_at s.slot s.frames s.many n ∙ f.1),
            );
        buffer = λ n lt.
            let p = b.slot * 2 ^ 27 + n in
            let h = law.low_InReach p (omega (arith, b.low, lt, ready.is_buffer.small)) in
            let below : ltb n (pages_before_last fb) ≡ true = ground (arith, lt) in
            not_jump p h (λ z. jump_buffer (omega (arith, z, lt, ready.is_buffer.small)))
            ∙ entry_by p (some (fb.physical / 4096 + n)) none h
                (buffer_frame_at b.slot fb ready.is_buffer n ∙ rw below refl)
                (stack_frame_elsewhere s.slot s.frames s.many p
                  (λ z. slots_differ (omega (arith, z, lt, ready.is_buffer.small))));
        buffer_end =
            let n = pages_before_last fb in
            let p = b.slot * 2 ^ 27 + n in
            let h = law.low_InReach p (omega (arith, b.low, ready.is_buffer.small)) in
            let not_below : ltb n n ≡ false = ground arith in
            not_jump p h (λ z. jump_buffer (omega (arith, z, ready.is_buffer.small)))
            ∙ entry_by p none none h
                (buffer_frame_at b.slot fb ready.is_buffer n ∙ rw not_below refl)
                (stack_frame_elsewhere s.slot s.frames s.many p
                  (λ z. slots_differ (omega (arith, z, ready.is_buffer.small))));
        jump = the_jump;
        others = λ p h not_stack not_buffer ne.
            not_jump p h ne
            ∙ entry_by p none none h (buffer_frame_elsewhere b.slot fb ready.is_buffer p not_buffer)
                (stack_frame_elsewhere s.slot s.frames s.many p not_stack);
      }

  stack_top :
      (slot : ℕ)
      → slot < 256
      → start_address virtual_space (Chunks.add (slot * 2 ^ 27 + 17) 1) ≡ slot * 2 ^ 39 + 18 * 4096
  stack_top slot low =
      let next : Chunks.add (slot * 2 ^ 27 + 17) 1 ≡ slot * 2 ^ 27 + 18 =
        ChunkLaws.add-below (slot * 2 ^ 27 + 17) 1 (omega (arith, low)) ∙ omega arith in
      ap (start_address virtual_space) next
      ∙ start_address_below virtual_space (slot * 2 ^ 27 + 18)
          (omega (arith, low, is_machine.virtual_limit))
      ∙ omega arith

  -- The stages in order, where each returns.
  composed :
      (jump_to_kernel : ℕ) (c : RuntimeContext machine a) (fb : FrameBuffer)
      (c1 c2 c3 : RuntimeContext machine a) (mapper : Mapper) (last : Chunk) (fb' : FrameBuffer)
      (top : Address)
      → map_stack machine a c ≡ ok (c1, last)
      → map_frame_buffer machine a c1 fb ≡ ok (c2, fb')
      → map_jump machine a jump_to_kernel c2 ≡ ok c3
      → machine.set_up_arch_specific_mappings c3.mapper ≡ ok mapper
      → start_address virtual_space (Chunks.add last 1) ≡ top
      → set_up_mappings machine a jump_to_kernel c (some fb)
        ≡ ok (record c3 { mapper = mapper }, some fb', top)
  unfolding set_up_mappings map_optional_frame_buffer
  composed jump_to_kernel c fb c1 c2 c3 mapper last fb' top e1 e2 e3 e4 e5 =
      rw (e1, e2, e3, e4, e5) refl

  -- `set_up_mappings`, with a frame buffer, on a context that is ready: it returns the top of a
  -- stack of 17 pages, mapped to new frames with the page below them left as it was; the frame
  -- buffer's pages are mapped to its frames in order, all but the last one, which keeps its entry;
  -- the page of the context switch is mapped to the frame of its number; every other page in reach
  -- outside the two slots keeps its entry.
  pub set_up_mappings-SetUp :
      (jump_to_kernel : ℕ) (c : RuntimeContext machine a) (fb : FrameBuffer) (i j : ℕ)
      → IsReady machine is_machine a q v law jump_to_kernel c fb i j
      → SetUp machine is_machine a q v law jump_to_kernel c fb
          (set_up_mappings machine a jump_to_kernel c (some fb))
  set_up_mappings-SetUp jump_to_kernel c fb i j ready =
      let s =
        map_stack-Stacked machine is_machine a q v law c i ready.size ready.low_i ready.free_i
          ready.valid ready.open_slots (omega (arith, ready.enough)) in
      let free =
        still_free c s i j ready.free_i ready.free_j ready.low_i ready.low_j ready.differ in
      let b =
        map_frame_buffer-Buffered machine is_machine a q v law s.context fb free.0 s.size free.1
          free.2 s.valid (open_slots jump_to_kernel c fb i j ready s) ready.is_buffer
          (omega (arith, ready.enough, length-Drops s.drops)) in
      let k =
        jumps jump_to_kernel b.context ready.jump_low b.valid
          (open_jump jump_to_kernel c fb i j ready s b)
          (omega (arith, ready.enough, length-Drops s.drops, length-Drops b.drops)) in
      let u = law.sets_up k.0.mapper k.0.after k.0.valid in
      made jump_to_kernel c fb i j ready s b k.0 u _ (
        composed jump_to_kernel c fb s.context b.context
          (record b.context { frame_allocator = k.0.after; mapper = k.0.mapper }) u.set_up _ _ _
          s.returns b.returns k.1 u.returns (stack_top s.slot s.low))
