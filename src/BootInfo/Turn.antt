-- ===== src/BootInfo/Turn.antt =====
-- One page of the loop of `create_boot_info` of uefi-bootloader/src/boot_info.rs, on aarch64: it is
-- mapped in the kernel's page tables and in those in use.
use uefi_bootloader.Prelude.{
  ℕ, ◌≤◌, ◌≡◌, refl, ap, ◌∙◌, ◌∷◌, arith, ◌==◌, if◌then◌else◌, length, Outcome, ◌>>=◌,
}
use mathlib.Core.Path.{subst}
use uefi_bootloader.Memory.Chunk.{Chunk}
use uefi_bootloader.Arch.{BitField}
use uefi_bootloader.Arch.Aarch64.Machine.{aarch64, page_view}
use uefi_bootloader.Arch.Aarch64.Mapper.{Mapper, map_page}
use uefi_bootloader.Arch.Aarch64.Mapper.Tree.{entry_of}
use uefi_bootloader.Arch.Aarch64.Mapper.Supply.{Fresh}
use uefi_bootloader.Arch.Aarch64.Mapper.Maps.{InReach, IsMapper}
use uefi_bootloader.Arch.Aarch64.Mapper.Beside.{IsBeside, IsBeside-swap, Leaves, map_page-Leaves}
use uefi_bootloader.BootInfo.Create.{boot_info_flags}
use uefi_bootloader.FrameAllocator.Source.{FrameAllocator, IsQueue}
use uefi_bootloader.FrameAllocator.Draw.{Drops, Drops-trans, length-Drops}

module _ (bits : BitField) (a : FrameAllocator) (q : IsQueue a) where
  open q use {left}

  pub IsBeside-draw :
      (k l : Mapper) (s s' : a.State) (f : Chunk)
      → IsBeside bits a q k l s
      → q.Valid s'
      → left s ≡ f ∷ left s'
      → IsBeside bits a q k l s'
  IsBeside-draw k l s s' f h v e =
      let drawn : (m : Mapper) → (i : IsMapper bits a q m s) → IsMapper bits a q m s' = λ m i.
        record {
          places = i.places;
          tree = i.tree;
          supply = record { valid = v; fresh = (subst (Fresh i.places) e i.supply.fresh).3 };
        } in
      record { one = drawn k h.one; two = drawn l h.two; same = h.same; apart = h.apart }

  -- The two calls of one turn, and what comes after them.
  abbrev pub turn :
      Chunk
      → Chunk
      → Mapper
      → Mapper
      → a.State
      → (Mapper → Mapper → a.State → Outcome (Mapper × Mapper × a.State))
      → Outcome (Mapper × Mapper × a.State)
  turn page frame k l s rest =
      let flags = boot_info_flags (aarch64 bits) in
      map_page bits a k page frame flags s >>= λ r.
      map_page bits a (record l { tables = r.0.tables }) page frame flags r.1 >>= λ u.
      rest (record r.0 { tables = u.0.tables }) u.0 u.1

  abbrev pub replaced : Chunk → Chunk → Mapper → Chunk → ℕ
  replaced page frame m c =
      if c == page
      then (page_view bits).leaf frame (boot_info_flags (aarch64 bits))
      else entry_of bits m c

  -- A turn that goes on.
  pub record Turned (page frame : Chunk) (k l : Mapper) (s : a.State) : Type 0 where
    pub mapper : Mapper
    pub in_use : Mapper
    pub after : a.State
    pub goes_on :
        (rest : Mapper → Mapper → a.State → Outcome (Mapper × Mapper × a.State))
        → turn page frame k l s rest ≡ rest mapper in_use after
    pub beside : IsBeside bits a q mapper in_use after
    pub drops : Drops 6 (left s) (left after)
    pub in_mapper : (c : Chunk) → InReach c → entry_of bits mapper c ≡ replaced page frame k c
    pub in_tables : (c : Chunk) → InReach c → entry_of bits in_use c ≡ replaced page frame l c

  twice :
      (page f : Chunk) (k l : Mapper) (s : a.State)
      (x : Leaves bits a q k l page f (boot_info_flags (aarch64 bits)) s)
      → Leaves bits a q
          (record l { tables = x.maps.mapper.tables })
          x.maps.mapper
          page
          f
          (boot_info_flags (aarch64 bits))
          x.maps.after
      → Turned page f k l s
  twice page f k l s x y =
      let flags = boot_info_flags (aarch64 bits) in
      let k' = record x.maps.mapper { tables = y.maps.mapper.tables } in
      record {
        mapper = k';
        in_use = y.maps.mapper;
        after = y.maps.after;
        goes_on = λ rest. rw (x.maps.returns, y.maps.returns) refl;
        beside = IsBeside-swap bits a q y.maps.mapper k' y.maps.after y.beside;
        drops = Drops-trans x.maps.drops y.maps.drops;
        in_mapper = λ c r. y.others c r ∙ x.maps.entries c r;
        in_tables = λ c r.
            y.maps.entries c r
            ∙ ap (λ e. if c == page then (page_view bits).leaf f flags else e) (x.others c r);
      }

  pub turned :
      (page f : Chunk) (k l : Mapper) (s : a.State)
      → IsBeside bits a q k l s
      → InReach page
      → 6 ≤ length (left s)
      → Turned page f k l s
  turned page f k l s h here n =
      let flags = boot_info_flags (aarch64 bits) in
      let x = map_page-Leaves bits a q k l page f flags s h here (omega (arith, n)) in
      let l' = record l { tables = x.maps.mapper.tables } in
      twice page f k l s x (
        map_page-Leaves bits a q l' x.maps.mapper page f flags x.maps.after
          (IsBeside-swap bits a q x.maps.mapper l' x.maps.after x.beside) here
          (omega (arith, n, length-Drops x.maps.drops)))
