-- ===== src/Arch/Aarch64/Machine.antt =====
-- uefi-bootloader/src/arch/aarch64/memory.rs as the architecture that the program is built for.
use uefi_bootloader.Prelude.{
  ℕ, ◌+◌, ◌*◌, ◌/◌, ◌^◌, ◌≤◌, ◌<◌, ◌≡◌, refl, ap, ◌∙◌, inl, inr, false, ◌∷◌, arith, ltb, ltb→lt,
  ltb→le, Bool-cases, length, bit_and_ones, Outcome, ok,
}
use mathlib.Core.Path.{subst}
use uefi_bootloader.Memory.Address.{Address}
use uefi_bootloader.Memory.Chunk.{Chunk}
use uefi_bootloader.FrameAllocator.Source.{FrameAllocator, IsQueue}
use uefi_bootloader.PageAllocator.{PageAllocator}
use uefi_bootloader.PageAllocator.Place.{Places}
use uefi_bootloader.PageAllocator.Slots.{is_used}
use uefi_bootloader.PageAllocator.Aarch64.{get_free_address, get_free_address_low-Places}
use uefi_bootloader.Arch.{BitField}
use uefi_bootloader.Arch.Machine.{Machine, Finds, IsMachine, PageView, Mapped, IsPageMap}
use uefi_bootloader.Arch.Aarch64.Canonical.{virtual_space, physical_space, virtual_closed}
use uefi_bootloader.Arch.Aarch64.Flags as Flags
use uefi_bootloader.Arch.Aarch64.Entry.{p0_index}
use uefi_bootloader.Arch.Aarch64.Mapper.{
  Tables, new, Mapper, current, frame, map_page, set_up_arch_specific_mappings,
}
use uefi_bootloader.Arch.Aarch64.Mapper.Tree.{entry_of}
use uefi_bootloader.Arch.Aarch64.Mapper.Supply.{Fresh}
use uefi_bootloader.Arch.Aarch64.Mapper.Maps.{InReach, leaf, IsMapper, Maps, map_page-Maps}
use uefi_bootloader.Arch.Aarch64.Mapper.Recursive.{set_up_IsMapper, set_up_entry_of}

module _ (bits : BitField) where
  abbrev pub aarch64 : Machine
  aarch64 = record {
    is_x86_64 = false;
    virtual_space = virtual_space bits;
    physical_space = physical_space bits;
    get_free_address = get_free_address bits;
    PteFlags = Flags.PteFlags;
    no_flags = Flags.new;
    present = Flags.present;
    writable = Flags.writable;
    no_execute = Flags.no_execute;
    Mapper = Mapper;
    Register = Address;
    frame = frame bits;
    map_page = map_page bits;
    set_up_arch_specific_mappings = λ k. ok (set_up_arch_specific_mappings bits k);
    Tables = Tables;
    new = λ a tables s. new bits a tables s;
    share = λ k l. record l { tables = k.tables };
    current = λ a k baddr s. ok (current bits baddr k.tables, baddr, s);
  }

  -- A slot whose addresses keep all their bits starts at its number of slots.
  Finds-of :
      (s : PageAllocator) (len i : ℕ)
      → 0 < len
      → i < 256
      → is_used s i ≡ false
      → {r : Outcome (PageAllocator × ℕ)} → Places (virtual_space bits) s len r
      → Finds s r
  unfolding virtual_space
  Finds-of s len i pos low free {r} p =
      let first = p.bytes 0 pos in
      let kept = virtual_closed (p.address + 0) in
      let start : p.address ≡ p.slot * 2 ^ 39 = omega (arith, p.aligned, first.0, first.1, kept) in
      record {
        after = p.after;
        slot = p.slot;
        returns = p.returns ∙ ap (λ x. ok (p.after, x)) start;
        low = elim (Bool-cases (ltb i p.slot)) [
          | inl e ↦ absurd (cc (p.lowest i (ltb→lt i p.slot e), free))
          | inr e ↦ omega (arith, ltb→le i p.slot e, low)
        ];
        size = p.size;
        was_free = p.was_free;
        marked = p.marked;
        others = p.others;
      }

  finds :
      (s : PageAllocator) (len i : ℕ)
      → length s.entries ≡ 512
      → 0 < len
      → len ≤ 2 ^ 39
      → i < 256
      → is_used s i ≡ false
      → Finds s (get_free_address bits s len)
  finds s len i size pos small low free =
      elim (get_free_address_low-Places bits s len size pos small) [
        | inl p ↦ Finds-of s len i pos low free p
        | inr h ↦ absurd (cc (h.1 i low, free))
      ]

  pub aarch64-IsMachine : IsMachine aarch64
  unfolding virtual_space physical_space
  aarch64-IsMachine = record {
    virtual_limit = omega arith;
    physical_limit = omega arith;
    finds = finds;
  }

  abbrev pub page_view : PageView aarch64
  page_view = record {
    Entry = ℕ;
    entry_of = entry_of bits;
    leaf = leaf bits;
    InReach = InReach;
    IsOpen = λ e. Unit {0};
    Valid = IsMapper bits;
  }

  module _ (a : FrameAllocator) (q : IsQueue a) where
    low_InReach : (c : Chunk) → c < 2 ^ 35 → InReach c
    unfolding p0_index
    low_InReach c h = (omega (arith, h), omega (arith, h, bit_and_ones 9 (c / 2 ^ 27)))

    draws :
        (k : Mapper) (s s' : a.State) (f : Chunk)
        → IsMapper bits a q k s
        → q.Valid s'
        → q.left s ≡ f ∷ q.left s'
        → IsMapper bits a q k s'
    draws k s s' f i v l = record {
      places = i.places;
      tree = i.tree;
      supply = record { valid = v; fresh = (subst (Fresh i.places) l i.supply.fresh).3 };
    }

    Mapped-of :
        (k : Mapper) (page frame : Chunk) (flags : ℕ) (s : a.State) {r : Outcome (Mapper × a.State)}
        → Maps bits a q k page frame flags s r
        → Mapped aarch64 a q page_view k page frame flags s r
    Mapped-of k page f flags s m = record {
      mapper = m.mapper;
      after = m.after;
      returns = m.returns;
      valid = m.valid;
      drops = m.drops;
      entries = m.entries;
    }

    pub aarch64-IsPageMap : IsPageMap aarch64 a q page_view
    aarch64-IsPageMap = record {
      low_InReach = low_InReach;
      queue = λ k s i. i.supply.valid;
      draws = draws;
      maps = λ k page f flags s i reach open' n.
          Mapped-of k page f flags s (map_page-Maps bits a q k page f flags s i reach n);
      sets_up = λ k s i. record {
        set_up = set_up_arch_specific_mappings bits k;
        returns = refl;
        valid = set_up_IsMapper bits a q k s i;
        entries = λ c. set_up_entry_of bits a q k s c i;
      };
    }
