-- ===== src/FrameAllocator/Buffer.antt =====
-- `construct_memory_map` writes the regions one after the other into the caller's slice.
use uefi_bootloader.Prelude.{
  ℕ, zero, suc, ◌+◌, ◌*◌, ◌≤◌, ◌<◌, ◌≡◌, refl, sym, ap, ◌∙◌, ◌⊎◌, inl, inr, Bool, true, false, not,
  ◌&&◌, ◌||◌, some, List, [], ◌∷◌, ◌++◌, map, arith, ltb, ◌==◌, if◌then◌else◌, Bool-cases, length,
  set, take, length-append, length-set, ◌+w◌, ◌-w◌, Outcome, ◌>>=◌, ok,
}
use mathlib.Core.List.{append_assoc, append-nil, map-append}
use uefi_bootloader.Memory.Address.{AddressSpace}
use uefi_bootloader.Memory.Chunk.{start_address}
use uefi_bootloader.Memory.Chunk.Laws.{start_address_below}
use uefi_bootloader.Api.{bootloader, usable, is_usable, MemoryRegion}
use uefi_bootloader.FrameAllocator.{
  MemoryTypes, MemoryDescriptor, CurrentDescriptor, MapState, byte_len, descriptor_kind, write,
  map_current_descriptor, map_descriptor,
}
use uefi_bootloader.FrameAllocator.Queue.{Fits, is_allocatable, IsCurrent}
use uefi_bootloader.FrameAllocator.Regions.{
  region, whole, used_len, free_len, free_part, parts, untouched,
}

-- The first `index` items of the slice hold the regions.
pub record Holds (size : ℕ) (it : Bool) (rs : List MemoryRegion) (s : MapState) : Type 0 where
  pub items : take s.index s.buffer ≡ map some rs
  pub index : s.index ≡ length rs
  pub room : length s.buffer ≡ size
  pub passed : s.iterated_through_used_descriptors ≡ it

-- A run that returns, with a state that holds the regions.
pub record Writes (room : ℕ) (passed : Bool) (rs : List MemoryRegion) (r : Outcome MapState)
    : Type 0 where
  pub end : MapState
  pub returns : r ≡ ok end
  pub holds : Holds room passed rs end

take-set {ℓ} :
    {A : Type ℓ} (xs : List A) (i : ℕ) (v : A)
    → i < length xs
    → take (suc i) (set xs i v) ≡ take i xs ++ v ∷ []
take-set [] i v h = absurd (omega arith)
take-set (x ∷ xs) zero v h = refl
take-set (x ∷ xs) (suc i) v h = ap (λ l. x ∷ l) (take-set xs i v (omega arith))

pub write-Writes :
    {room : ℕ} {passed : Bool} {rs : List MemoryRegion} {s : MapState} (r : MemoryRegion)
    → Holds room passed rs s
    → length rs < room
    → Writes room passed (rs ++ r ∷ []) (write s r)
unfolding write
write-Writes {rs} {s} r h fits =
    let next : s.index + 1 ≡ suc s.index = omega arith in
    record {
      end = record s { buffer = set s.buffer s.index (some r); index = s.index + 1 };
      returns = ground (arith, h.index, h.room);
      holds = record {
        items =
            ap (λ n. take n (set s.buffer s.index (some r))) next
            ∙ take-set s.buffer s.index (some r) (omega (arith, h.index, h.room))
            ∙ rw h.items (sym (map-append some rs (r ∷ [])));
        index = omega (arith, h.index, length-append rs (r ∷ []));
        room = length-set s.buffer s.index (some r) ∙ h.room;
        passed = h.passed;
      };
    }

bind-Writes :
    {room : ℕ} {passed : Bool} {rs rs' : List MemoryRegion} {m : Outcome MapState} {passed' : Bool}
    {f : MapState → Outcome MapState}
    → Writes room passed rs m
    → ((s : MapState) → Holds room passed rs s → Writes room passed' rs' (f s))
    → Writes room passed' rs' (m >>= f)
bind-Writes w next =
    let after = next w.end w.holds in
    record { end = after.end; returns = rw w.returns after.returns; holds = after.holds }

if_true {ℓ} : {A : Type ℓ} {b : Bool} (x y : A) → b ≡ true → (if b then x else y) ≡ x
if_true x y h = rw h

if_false {ℓ} : {A : Type ℓ} {b : Bool} (x y : A) → b ≡ false → (if b then x else y) ≡ y
if_false x y h = rw h

skipped_tests : (b c e : Bool) → (c && not e) ≡ false → (b || e || not c) ≡ true
skipped_tests b c e q = ground arith

taken_tests : (b c e : Bool) → b ≡ false → (c && not e) ≡ true → (b || e || not c) ≡ false
taken_tests b c e p q = ground arith

≡→== : {a b : ℕ} → a ≡ b → (a == b) ≡ true
≡→== h = ground arith

one_more : {a b : ℕ} → a + 1 ≤ b → a < b
one_more h = omega arith

-- The second region is written only if there is something in it.
free_part-Writes :
    (c : CurrentDescriptor) {room : ℕ} {rs : List MemoryRegion} {s : MapState}
    → Holds room false rs s
    → length rs + length (free_part c) ≤ room
    → Writes room false (rs ++ free_part c) (
        if ltb 0 (free_len c)
        then write s (region (c.descriptor.phys_start + used_len c) (free_len c) usable)
        else ok s)
free_part-Writes c {rs} {s} h enough = elim (Bool-cases (ltb 0 (free_len c))) [
  | inl e ↦ rw e (write-Writes _ h (one_more (rw e at enough)))
  | inr e ↦ rw (e, append-nil rs) (record { end = s; returns = refl; holds = h })
]

module _ (space : AddressSpace) (types : MemoryTypes) (c : CurrentDescriptor)
    (is : IsCurrent space c) where
  byte_len-eq : (d : MemoryDescriptor) → Fits space d → byte_len d ≡ d.page_count * 4096
  byte_len-eq d fits = omega (arith, fits.below, space.limit-le)

  used_len-eq :
      (d : MemoryDescriptor)
      → d.phys_start ≡ c.descriptor.phys_start
      → start_address space c.next_frame -w d.phys_start ≡ used_len c
  used_len-eq d e =
      rw (e, start_address_below space c.next_frame (omega (arith, is.fits.below, is.to_last)))
        (omega (arith, is.fits.below, is.fits.aligned, is.from_first, is.to_last, space.limit-le))

  module _ (s : MapState) (d : MemoryDescriptor) (fits : Fits space d) where
    -- What the body of the loop does: a descriptor that was not touched is reported as it is, one
    -- that was used up as the bootloader's, and the current one in parts.
    pub map_untouched :
        (s.iterated_through_used_descriptors ≡ true) ⊎ (is_allocatable types d ≡ false)
        → map_descriptor space types c d s ≡ write s (untouched types d)
    unfolding map_descriptor
    map_untouched why =
        if_true _ _ (either why)
        ∙ ap (λ n. write s (region d.phys_start n (descriptor_kind types d))) (byte_len-eq d fits)
      where
        either :
            (s.iterated_through_used_descriptors ≡ true) ⊎ (is_allocatable types d ≡ false)
            → (s.iterated_through_used_descriptors
                || ltb d.phys_start 0x1_0000
                || not (is_usable (descriptor_kind types d)))
              ≡ true
        either why = ground arith

    pub map_used_up :
        s.iterated_through_used_descriptors ≡ false
        → is_allocatable types d ≡ true
        → (d.phys_start == c.descriptor.phys_start) ≡ false
        → map_descriptor space types c d s ≡ write s (whole d bootloader)
    unfolding map_descriptor
    map_used_up p q other =
        if_false _ _ (taken_tests _ _ _ p q)
        ∙ if_false _ _ other
        ∙ ap (λ n. write s (region d.phys_start n bootloader)) (byte_len-eq d fits)

    map_in_parts :
        s.iterated_through_used_descriptors ≡ false
        → is_allocatable types d ≡ true
        → d.phys_start ≡ c.descriptor.phys_start
        → map_descriptor space types c d s ≡ map_current_descriptor space c d s
    unfolding map_descriptor
    map_in_parts p q e = if_false _ _ (taken_tests _ _ _ p q) ∙ if_true _ _ (≡→== e)

    map_current_descriptor-eq :
        d.phys_start ≡ c.descriptor.phys_start
        → d.page_count ≡ c.descriptor.page_count
        → map_current_descriptor space c d s ≡ (do
          s1 ← write s (region c.descriptor.phys_start (used_len c) bootloader)
          s2 ←
              (if ltb 0 (free_len c)
                then write s1 (region (c.descriptor.phys_start + used_len c) (free_len c) usable)
                else ok s1)
          ok (record s2 { iterated_through_used_descriptors = true }))
    unfolding map_current_descriptor
    map_current_descriptor-eq e same =
        let rest : byte_len d -w used_len c ≡ free_len c = omega (
          arith,
          byte_len-eq d fits,
          same,
          is.to_last,
          is.fits.aligned,
          is.from_first,
          is.fits.below,
          space.limit-le,
        ) in
        let start : d.phys_start +w used_len c ≡ c.descriptor.phys_start + used_len c =
          omega
            (arith, e, is.to_last, is.fits.aligned, is.from_first, is.fits.below, space.limit-le) in
        simp (used_len-eq d e, rest, start) (simp e)

    pub map_current :
        {room : ℕ} {rs : List MemoryRegion}
        → is_allocatable types d ≡ true
        → d.phys_start ≡ c.descriptor.phys_start
        → d.page_count ≡ c.descriptor.page_count
        → Holds room false rs s
        → length rs + length (parts c) ≤ room
        → Writes room true (rs ++ parts c) (map_descriptor space types c d s)
    map_current {room} {rs} chosen e same h enough =
        let used = region c.descriptor.phys_start (used_len c) bootloader in
        rw (map_in_parts h.passed chosen e, map_current_descriptor-eq e same)
          (bind-Writes (write-Writes used h (omega arith)) λ s1 h1.
            bind-Writes (free_part-Writes c h1 (omega (arith, length-append rs (used ∷ []))))
              λ s2 h2.
                let all : Holds room false (rs ++ parts c) s2 =
                  rw (append_assoc rs (used ∷ []) (free_part c)) at h2 in
                record {
                  end = record s2 { iterated_through_used_descriptors = true };
                  returns = refl;
                  holds = record {
                    items = all.items;
                    index = all.index;
                    room = all.room;
                    passed = refl;
                  };
                })
