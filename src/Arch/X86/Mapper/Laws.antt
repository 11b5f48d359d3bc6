-- ===== src/Arch/X86/Mapper/Laws.antt =====
-- What the crate `x86_64` promises, and the root table of the mappers of
-- uefi-bootloader/src/arch/x86_64/memory.rs.
use uefi_bootloader.Prelude.{
  ℕ, ◌*◌, ◌/◌, ◌%◌, ◌^◌, ◌<◌, bit_or, ◌≡◌, refl, sym, ◌∙◌, ◌≢◌, ◌⊎◌, inl, inr, true, false, ◌&&◌,
  Option, some, [], ◌∷◌, arith, ◌==◌, All, ◌*w◌, Outcome, ◌>>=◌, expect, ok, panic,
}
use mathlib.Core.Path.{subst}
use uefi_bootloader.Memory.Address.{Address, new_canonical}
use uefi_bootloader.Memory.Chunk.{Chunk, start_address, containing_address}
use uefi_bootloader.FrameAllocator.Source.{FrameAllocator, IsQueue}
use uefi_bootloader.FrameAllocator.Draw.{Allocates, got, out, allocates}
use uefi_bootloader.Arch.{BitField}
use uefi_bootloader.Arch.X86.{canonicalize_virtual_address}
use uefi_bootloader.Arch.X86.Canonical.{
  virtual_space, physical_space, physical_closed, canonical_closed,
}
use uefi_bootloader.Arch.X86.Flags.{PageTableFlags}
use uefi_bootloader.Arch.X86.Mapper.{
  Crate, Tables, write, new_table, Mapper, frame, from_page, from_frame,
  set_up_arch_specific_mappings, current,
}

-- The checked constructors take what is canonical and aligned; a level 4 index is nine bits of the
-- address; the flags 0, 1 and 63 are known; an entry holds its frame and its flags.
pub record IsCrate (crate' : Crate) : Type 0 where
  pub virt_addr-ok :
      (a : ℕ) → a < 2 ^ 64 → canonicalize_virtual_address a ≡ a → crate'.virt_addr a ≡ ok a
  pub phys_addr-ok : (a : ℕ) → a < 2 ^ 52 → crate'.phys_addr a ≡ ok a
  pub page_from_start_address-some :
      (a : ℕ) → a % 4096 ≡ 0 → crate'.page_from_start_address a ≡ some a
  pub frame_from_start_address-some :
      (a : ℕ) → a % 4096 ≡ 0 → crate'.frame_from_start_address a ≡ some a
  pub p4_index_lem : (a : ℕ) → a < 2 ^ 64 → crate'.p4_index a ≡ a / 2 ^ 39 % 512
  pub from_bits_truncate_lem :
      (f : ℕ) → f < 2 ^ 64 → f / 2 ^ 2 % 2 ^ 61 ≡ 0 → crate'.from_bits_truncate f ≡ f
  pub entry : Address → ℕ → crate'.Entry
  pub addr : crate'.Entry → Address
  pub flags : crate'.Entry → ℕ
  pub set_frame-ok :
      (f n : ℕ)
      → f < 2 ^ 52
      → f % 4096 ≡ 0
      → n / 2 ^ 7 % 2 ≡ 0
      → crate'.set_frame f n ≡ ok (entry f n)
  pub addr-entry : (f n : ℕ) → f < 2 ^ 52 → f % 4096 ≡ 0 → addr (entry f n) ≡ f
  pub flags-entry : (f n : ℕ) → n / 2 ^ 12 % 2 ^ 40 ≡ 0 → flags (entry f n) ≡ n

module _ (bits : BitField) (crate' : Crate) (is_crate : IsCrate crate') where
  start_of : (f : Chunk) → f < 2 ^ 40 → start_address (physical_space bits) f ≡ f * 4096
  unfolding start_address new_canonical physical_space
  start_of f h =
      let whole : f *w 4096 ≡ f * 4096 = omega (arith, h) in
      rw whole (omega (arith, physical_closed (f * 4096), h))

  pub from_frame-ok : (f : Chunk) → f < 2 ^ 40 → from_frame crate' bits f ≡ ok (f * 4096)
  unfolding from_frame
  from_frame-ok f h =
      rw
        (
          start_of f h,
          is_crate.phys_addr-ok (f * 4096) (omega (arith, h)),
          is_crate.frame_from_start_address-some (f * 4096) (omega arith),
        )
        refl

  -- A page below `2 ^ 35` starts in the lower half of the address space.
  pub from_page-ok : (p : Chunk) → p < 2 ^ 35 → from_page crate' bits p ≡ ok (p * 4096)
  unfolding from_page start_address new_canonical virtual_space
  from_page-ok p h =
      let whole : p *w 4096 ≡ p * 4096 = omega (arith, h) in
      let kept : canonicalize_virtual_address (p * 4096) ≡ p * 4096 =
        ground (arith, canonical_closed (p * 4096), h) in
      rw
        (
          whole,
          kept,
          is_crate.virt_addr-ok (p * 4096) (omega (arith, h)) kept,
          is_crate.page_from_start_address-some (p * 4096) (omega arith),
        )
        refl

  pub frame-root :
      (m : Mapper crate') (f : Chunk)
      → m.level_4_table ≡ f * 4096
      → f < 2 ^ 40
      → frame crate' bits m ≡ f
  unfolding frame containing_address new_canonical physical_space
  frame-root m f e h = rw e (omega (arith, physical_closed (f * 4096), h))

  -- The recursive entry: the entry 510 of the root leads to the root, and no other entry changes.
  pub record Recurses (flags : PageTableFlags) (m : Mapper crate') (f : Chunk)
      (r : Outcome (Mapper crate')) : Type 0 where
    pub after : Mapper crate'
    pub entry : crate'.Entry
    pub returns : r ≡ ok after
    pub written : after ≡ record m { tables = write crate' m.tables (f * 4096) 510 entry }
    pub same_frame : frame crate' bits after ≡ frame crate' bits m
    pub leads_back : is_crate.addr (after.tables (f * 4096) 510) ≡ frame crate' bits m * 4096
    pub with_flags : is_crate.flags (after.tables (f * 4096) 510) ≡ 3
    pub others :
        (t : Address) (i : ℕ) → (t ≢ f * 4096) ⊎ (i ≢ 510) → after.tables t i ≡ m.tables t i

  -- On a mapper whose root is the frame `f`, `set_up_arch_specific_mappings` returns, the entry 510 of
  -- the root leads back to the root, present and writable, and every other entry of every table is as
  -- before.
  pub set_up_arch_specific_mappings-Recurses :
      (flags : PageTableFlags) (m : Mapper crate') (f : Chunk)
      → m.level_4_table ≡ f * 4096
      → f < 2 ^ 40
      → Recurses flags m f (set_up_arch_specific_mappings crate' bits flags m)
  unfolding set_up_arch_specific_mappings
  set_up_arch_specific_mappings-Recurses flags m f e h =
      let top : canonicalize_virtual_address 0o177777_776_000_000_000_0000
          ≡ 0o177777_776_000_000_000_0000 =
        ground (arith, canonical_closed 0o177777_776_000_000_000_0000) in
      let index : crate'.p4_index 0o177777_776_000_000_000_0000 ≡ 510 =
        is_crate.p4_index_lem 0o177777_776_000_000_000_0000 (omega arith) ∙ omega arith in
      let three : bit_or flags.present flags.writable ≡ 3 =
        rw (flags.present_lem, flags.writable_lem) refl in
      let entry = is_crate.entry (f * 4096) 3 in
      let root = frame-root m f e h in
      let self : (f * 4096 == f * 4096 && 510 == 510) ≡ true = ground arith in
      record {
        after = record m { tables = write crate' m.tables (f * 4096) 510 entry };
        entry = entry;
        written = rw e refl;
        returns =
            rw
              (
                e,
                is_crate.phys_addr-ok (f * 4096) (omega (arith, h)),
                is_crate.frame_from_start_address-some (f * 4096) (omega arith),
                is_crate.virt_addr-ok 0o177777_776_000_000_000_0000 (omega arith) top,
                three,
                is_crate.set_frame-ok (f * 4096) 3 (omega (arith, h)) (omega arith) (omega arith),
                index,
              )
              refl;
        same_frame = frame-root _ f e h ∙ sym root;
        leads_back =
            rw (self, root) (is_crate.addr-entry (f * 4096) 3 (omega (arith, h)) (omega arith));
        with_flags = rw self (is_crate.flags-entry (f * 4096) 3 (omega arith));
        others = λ t i o.
            let apart : (t == f * 4096 && i == 510) ≡ false = ground (arith, o) in rw apart refl;
      }

  module _ (a : FrameAllocator) (q : IsQueue a) where
    open q use {left}

    -- What is done with the frame.
    abbrev copied : Tables crate' → Address → Chunk → Mapper crate'
    copied tables cr3 f =
        let cleared = new_table crate' tables (f * 4096) in
        record {
          tables = write crate' cleared (f * 4096) 0 (cleared cr3 0);
          level_4_table = f * 4096;
        }

    -- The mapper that `current` makes has the frame in CR3 as its root, and the old root's entry 0.
    pub record Copies (tables : Tables crate') (cr3 : Address) (s : a.State)
        (r : Outcome (Mapper crate' × Address × a.State)) : Type 0 where
      pub mapper : Mapper crate'
      pub after : a.State
      pub root : Chunk
      pub returns : r ≡ ok (mapper, root * 4096, after)
      pub taken : left s ≡ root ∷ left after
      pub valid : q.Valid after
      pub is_root : frame crate' bits mapper ≡ root
      pub first : mapper.tables (root * 4096) 0 ≡ tables cr3 0
      pub empty : (i : ℕ) → 0 < i → mapper.tables (root * 4096) i ≡ crate'.unused
      pub elsewhere : (t : Address) (i : ℕ) → t ≢ root * 4096 → mapper.tables t i ≡ tables t i

    copies :
        (tables : Tables crate') (cr3 : Address) (s s' : a.State) (f : Chunk)
        → q.Valid s'
        → left s ≡ f ∷ left s'
        → f < 2 ^ 40
        → cr3 ≢ f * 4096
        → Copies tables cr3 s (ok (copied tables cr3 f, f * 4096, s'))
    copies tables cr3 s s' f v l h ne =
        let self : (f * 4096 == f * 4096) ≡ true = ground arith in
        let old : (cr3 == f * 4096) ≡ false = ground (arith, ne) in
        record {
          mapper = copied tables cr3 f;
          after = s';
          root = f;
          returns = refl;
          taken = l;
          valid = v;
          is_root = frame-root (copied tables cr3 f) f refl h;
          first = rw (self, old) refl;
          empty = λ i pos.
              let not_first : (i == 0) ≡ false = ground (arith, pos) in rw (self, not_first) refl;
          elsewhere = λ t i differ.
              let apart : (t == f * 4096) ≡ false = ground (arith, differ) in rw apart refl;
        }

    -- What follows the allocation.
    currently :
        Tables crate'
        → Address
        → a.State × Option Chunk
        → Outcome (Mapper crate' × Address × a.State)
    currently tables cr3 g = expect g.1 >>= λ new_frame.
        let pointer = start_address (physical_space bits) new_frame in
        let cleared = new_table crate' tables pointer in
        let result : Mapper crate' = record {
          tables = write crate' cleared pointer 0 (cleared cr3 0);
          level_4_table = pointer;
        } in
        from_frame crate' bits new_frame >>= λ cr3'. ok (result, cr3', g.0)

    currently-Copies :
        (tables : Tables crate') (cr3 : Address) (s : a.State) (g : a.State × Option Chunk)
        → All (λ f. (f < 2 ^ 40) × (cr3 ≢ f * 4096)) (left s)
        → Allocates a q s g
        → Copies tables cr3 s (currently tables cr3 g)
          ⊎ ((left s ≡ []) × (currently tables cr3 g ≡ panic))
    unfolding currently
    currently-Copies tables cr3 s _ small (got s' f v l) =
        let h = (subst (All (λ f. (f < 2 ^ 40) × (cr3 ≢ f * 4096))) l small).0 in
        inl (rw (start_of f h.0, from_frame-ok f h.0) (copies tables cr3 s s' f v l h.0 h.1))
    currently-Copies tables cr3 s _ small (out s' l) = inr (l, refl)

    -- `current`, where the frames left are not that of CR3: it takes the first frame, puts it in CR3
    -- and makes it the root of a mapper with the old root's entry 0 and no other entry, and no other
    -- table changes; it panics if no frame is left.
    pub current-Copies :
        (tables : Tables crate') (cr3 : Address) (s : a.State)
        → q.Valid s
        → All (λ f. (f < 2 ^ 40) × (cr3 ≢ f * 4096)) (left s)
        → Copies tables cr3 s (current crate' bits a tables cr3 s)
          ⊎ ((left s ≡ []) × (current crate' bits a tables cr3 s ≡ panic))
    unfolding current currently
    current-Copies tables cr3 s v small =
        currently-Copies tables cr3 s (a.allocate_frame s) small (allocates a q s v)
