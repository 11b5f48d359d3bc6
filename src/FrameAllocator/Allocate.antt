-- ===== src/FrameAllocator/Allocate.antt =====
-- `allocate_frame` takes the first frame of the queue.
use uefi_bootloader.Prelude.{
  ◌+◌, ◌-◌, ◌≡◌, refl, ap, ◌∙◌, inl, inr, Bool, true, false, not, ◌&&◌, Option, none, some, List,
  [], ◌∷◌, ◌++◌, arith, ltb, if◌then◌else◌, ltb→lt, ltb→le, Bool-cases, All,
}
use mathlib.Core.List.{append_assoc}
use uefi_bootloader.Memory.Address.{AddressSpace}
use uefi_bootloader.Memory.Chunk.{Chunk}
use uefi_bootloader.Api.{is_usable}
use uefi_bootloader.FrameAllocator.{
  MemoryTypes, or_else, MemoryDescriptor, CurrentDescriptor, LegacyFrameAllocator, descriptor_kind,
  allocate_frame_from_current, next_descriptor, allocate_frame,
}
use uefi_bootloader.FrameAllocator.Queue.{
  Fits, first_frame, is_allocatable, pending, left, remaining, IsCurrent, IsCurrentIn, here, IsAt,
  Inv, Took, fresh, state, pending-append, range_head, range_none,
}
use uefi_bootloader.FrameAllocator.Current.{
  from_current, fresh-IsCurrent, taken_first, next-IsCurrent, more_of_pos, none_of_zero, both_of,
}

module _ (space : AddressSpace) (types : MemoryTypes) where
  next_descriptor-skip :
      (d : MemoryDescriptor) (ds : List MemoryDescriptor) (s : LegacyFrameAllocator)
      → is_allocatable types d ≡ false
      → next_descriptor space types (d ∷ ds) s ≡ next_descriptor space types ds s
  unfolding next_descriptor
  next_descriptor-skip d ds s no_use = elim (Bool-cases (is_usable (descriptor_kind types d))) [
    | inl e ↦ rw (e, low_of_skip e no_use)
    | inr e ↦ rw e
  ]
    where
      low_of_skip : {b c : Bool} → b ≡ true → (b && not c) ≡ false → c ≡ true
      low_of_skip p q = ground arith

  next_descriptor-try :
      (d : MemoryDescriptor) (ds : List MemoryDescriptor) (s : LegacyFrameAllocator)
      → is_allocatable types d ≡ true
      → Fits space d
      → next_descriptor space types (d ∷ ds) s ≡ (
          if ltb 0 d.page_count
          then (
            state s.original ds (some (record { descriptor = d; next_frame = first_frame d + 1 })),
            some (first_frame d),
          )
          else next_descriptor space types ds (state s.original ds (some (fresh d))))
  unfolding next_descriptor
  next_descriptor-try d ds s in_use fits =
      let high = (both_of space in_use).1 in
      rw
        (
          (both_of space in_use).0,
          high,
          space.canonicalize_below d.phys_start (omega (arith, fits.below)),
          from_current space s.original ds (fresh d) (fresh-IsCurrent space d fits high),
        )
        (elim (Bool-cases (ltb 0 d.page_count)) [
          | inl e ↦ rw (e, more_of_pos space d e)
          | inr e ↦ rw (e, none_of_zero space d e)
        ])

  next_descriptor-nil :
      (s : LegacyFrameAllocator)
      → next_descriptor space types [] s ≡ (record s { memory_map = [] }, none)
  unfolding next_descriptor
  next_descriptor-nil s = refl

  allocate_frame-none :
      (o m : List MemoryDescriptor)
      → allocate_frame space types (state o m none) ≡ next_descriptor space types m (state o m none)
  unfolding allocate_frame
  allocate_frame-none o m = refl

  allocate_frame-eq :
      (s : LegacyFrameAllocator)
      → allocate_frame space types s
        ≡ or_else
            (allocate_frame_from_current space s)
            (λ s'. next_descriptor space types s'.memory_map s')
  unfolding allocate_frame
  allocate_frame-eq s = refl

  allocate_frame-some :
      (o m : List MemoryDescriptor) (c : CurrentDescriptor)
      → IsCurrent space c
      → allocate_frame space types (state o m (some c)) ≡ (
          if ltb c.next_frame (first_frame c.descriptor + c.descriptor.page_count)
          then (state o m (some (record c { next_frame = c.next_frame + 1 })), some c.next_frame)
          else next_descriptor space types m (state o m (some c)))
  allocate_frame-some o m c is =
      rw (allocate_frame-eq (state o m (some c)), from_current space o m c is)
        (elim (Bool-cases (ltb c.next_frame (first_frame c.descriptor + c.descriptor.page_count))) [
          | inl e ↦ rw e
          | inr e ↦ rw e
        ])

  skip-IsAt :
      {o ds : List MemoryDescriptor} {d : MemoryDescriptor} {c : Option CurrentDescriptor}
      → IsAt types o (d ∷ ds) c
      → is_allocatable types d ≡ false
      → IsAt types o ds c
  unfolding pending
  skip-IsAt {ds} {d} {c} at e = record {
    before = at.before;
    skipped = at.skipped ++ d ∷ [];
    chosen = at.chosen;
    skipped_none = pending-append types at.skipped (d ∷ []) ∙ rw (at.skipped_none, e);
    split = at.split ∙ rw (append_assoc at.skipped (d ∷ []) ds);
  }

  pass-IsAt :
      {o ds : List MemoryDescriptor} {d : MemoryDescriptor} {c : Option CurrentDescriptor}
      → IsAt types o (d ∷ ds) c
      → is_allocatable types d ≡ true
      → (n : Chunk) → IsAt types o ds (some (record { descriptor = d; next_frame = n }))
  unfolding pending
  pass-IsAt {ds} {d} {c} at e n = record {
    before = at.before ++ (here c ++ at.skipped);
    skipped = [];
    chosen = (e, tt);
    skipped_none = refl;
    split = at.split ∙ simp append_assoc;
  }

  next_descriptor-Took :
      (o m ds : List MemoryDescriptor) (c : Option CurrentDescriptor)
      → All (Fits space) ds
      → IsCurrentIn space c
      → left c ≡ []
      → IsAt types o ds c
      → Took space types o (pending types ds) (next_descriptor space types ds (state o m c))
  unfolding pending
  next_descriptor-Took o m [] c fits is done at = rw (next_descriptor-nil (state o m c)) (record {
    inv = record { fits = fits; current = is; at = at };
    same = refl;
    held = tt;
    taken = (refl, rw done);
  })
  next_descriptor-Took o m (d ∷ ds) c fits is done at = elim (Bool-cases (is_allocatable types d)) [
    | inl e ↦ elim (Bool-cases (ltb 0 d.page_count)) [
      | inl pos ↦
          rw (next_descriptor-try d ds (state o m c) e fits.0, pos)
            (record {
              inv = record {
                fits = fits.1;
                current = taken_first space d fits.0 (both_of space e).1 pos;
                at = pass-IsAt at e (first_frame d + 1);
              };
              same = refl;
              held = tt;
              taken = rw e (
                  ap (λ l. l ++ pending types ds)
                    (range_head (first_frame d) d.page_count
                      (first_frame d + d.page_count - (first_frame d + 1)) (ltb→lt _ _ pos)
                      (omega arith)));
            })
      | inr none_in ↦
          rw
            (
              next_descriptor-try d ds (state o m c) e fits.0,
              none_in,
              e,
              range_none (first_frame d) d.page_count (ltb→le _ _ none_in),
            )
            (next_descriptor-Took o ds ds (some (fresh d)) fits.1
              (fresh-IsCurrent space d fits.0 (both_of space e).1)
              (range_none (first_frame d) _ (omega (arith, ltb→le 0 d.page_count none_in)))
              (pass-IsAt at e (first_frame d)))
    ]
    | inr e ↦
        rw (next_descriptor-skip d ds (state o m c) e, e)
          (next_descriptor-Took o m ds c fits.1 is done (skip-IsAt at e))
  ]

  allocate_frame-at :
      (o m : List MemoryDescriptor) (c : Option CurrentDescriptor)
      → All (Fits space) m
      → IsCurrentIn space c
      → IsAt types o m c
      → Took space types o
          (remaining types (state o m c))
          (allocate_frame space types (state o m c))
  allocate_frame-at o m none fits is at =
      rw (allocate_frame-none o m) (next_descriptor-Took o m m none fits is refl at)
  allocate_frame-at o m (some c) fits is at =
      elim (Bool-cases (ltb c.next_frame (first_frame c.descriptor + c.descriptor.page_count))) [
        | inl more ↦
            rw (allocate_frame-some o m c is, more)
              (record {
                inv = record {
                  fits = fits;
                  current = next-IsCurrent space c is more;
                  at = record {
                    before = at.before;
                    skipped = at.skipped;
                    skipped_none = at.skipped_none;
                    chosen = at.chosen;
                    split = at.split;
                  };
                };
                same = refl;
                held = tt;
                taken =
                    ap (λ l. l ++ pending types m)
                      (range_head _ _ _ (omega (arith, ltb→lt _ _ more)) (omega arith));
              })
        | inr over ↦
            let e : left (some c) ≡ [] = range_none _ _ (omega (arith, ltb→le _ _ over)) in
            rw (allocate_frame-some o m c is, over, e)
              (next_descriptor-Took o m m (some c) fits is e at)
      ]

  -- `allocate_frame` is a removal from a queue: in a state of the invariant it hands out the first
  -- of the remaining frames and leaves the others, or nothing exactly when none remains; the
  -- invariant holds on, and the map that the allocator was made from stays the same.
  pub allocate_frame-Took :
      (s : LegacyFrameAllocator)
      → Inv space types s
      → Took space types s.original (remaining types s) (allocate_frame space types s)
  allocate_frame-Took s inv =
      allocate_frame-at s.original s.memory_map s.current_descriptor inv.fits inv.current inv.at
