-- ===== src/Arch/X86/Machine.antt =====
-- uefi-bootloader/src/arch/x86_64/memory.rs as the architecture that the program is built for.
mod Tests
use uefi_bootloader.Prelude.{
  ℕ, ◌+◌, ◌*◌, ◌^◌, ◌≤◌, ◌<◌, ◌≡◌, ap, ◌∙◌, inl, inr, true, false, arith, ltb, ltb→lt, ltb→le,
  Bool-cases, length, Outcome, ok,
}
use uefi_bootloader.Memory.Address.{Address}
use uefi_bootloader.PageAllocator.{PageAllocator}
use uefi_bootloader.PageAllocator.Place.{Places}
use uefi_bootloader.PageAllocator.Slots.{is_used}
use uefi_bootloader.PageAllocator.X86.{Paging, get_free_address, get_free_address-Places}
use uefi_bootloader.Arch.{BitField}
use uefi_bootloader.Arch.Machine.{Machine, Finds, IsMachine}
use uefi_bootloader.Arch.X86.{canonicalize_virtual_address}
use uefi_bootloader.Arch.X86.Canonical.{virtual_space, physical_space, canonical_closed}
use uefi_bootloader.Arch.X86.Flags as Flags
use uefi_bootloader.Arch.X86.Flags.{PageTableFlags}
use uefi_bootloader.Arch.X86.Mapper.{
  Tables, new, Crate, Mapper, frame, map_page, set_up_arch_specific_mappings, current,
}

canonical-lt : (a : ℕ) → canonicalize_virtual_address a < 2 ^ 64
unfolding canonicalize_virtual_address
canonical-lt a = ground arith

module _ (bits : BitField) (paging : Paging) (flags : PageTableFlags) (crate' : Crate) where
  abbrev pub x86_64 : Machine
  x86_64 = record {
    is_x86_64 = true;
    virtual_space = virtual_space bits;
    physical_space = physical_space bits;
    get_free_address = get_free_address bits paging;
    PteFlags = Flags.PteFlags;
    no_flags = Flags.new;
    present = Flags.present flags;
    writable = Flags.writable flags;
    no_execute = Flags.no_execute flags;
    Mapper = Mapper crate';
    Register = Address;
    frame = frame crate' bits;
    map_page = λ a. map_page crate' bits a;
    set_up_arch_specific_mappings = set_up_arch_specific_mappings crate' bits flags;
    Tables = Tables crate';
    new = λ a tables s. new crate' bits a tables s;
    share = λ k l. record l { tables = k.tables };
    current = λ a k cr3 s. current crate' bits a k.tables cr3 s;
  }

  -- A slot below the 256th starts at its number of slots.
  Finds-of :
      (s : PageAllocator) (len i : ℕ)
      → 0 < len
      → i < 256
      → is_used s i ≡ false
      → {r : Outcome (PageAllocator × ℕ)} → Places (virtual_space bits) s len r
      → Finds s r
  unfolding virtual_space
  Finds-of s len i pos low free {r} p =
      let first = p.bytes 0 pos in
      let slot_low : p.slot < 256 = elim (Bool-cases (ltb i p.slot)) [
        | inl e ↦ absurd (cc (p.lowest i (ltb→lt i p.slot e), free))
        | inr e ↦ omega (arith, ltb→le i p.slot e, low)
      ] in
      let small : p.address < 2 ^ 64 = omega (arith, canonical-lt (p.address + 0), first.1) in
      let start : p.address ≡ p.slot * 2 ^ 39 =
        ground (arith, p.aligned, first.0, first.1, slot_low, canonical_closed p.address small) in
      record {
        after = p.after;
        slot = p.slot;
        returns = p.returns ∙ ap (λ x. ok (p.after, x)) start;
        low = slot_low;
        size = p.size;
        was_free = p.was_free;
        marked = p.marked;
        others = p.others;
      }

  finds :
      (s : PageAllocator) (len i : ℕ)
      → length s.entries ≡ 512
      → 0 < len
      → len ≤ 2 ^ 39
      → i < 256
      → is_used s i ≡ false
      → Finds s (get_free_address bits paging s len)
  finds s len i size pos small low free =
      elim (get_free_address-Places bits paging s len size pos small) [
        | inl p ↦ Finds-of s len i pos low free p
        | inr h ↦ absurd (cc (h.1 i, free))
      ]

  pub x86_64-IsMachine : IsMachine x86_64
  unfolding virtual_space physical_space
  x86_64-IsMachine = record {
    virtual_limit = omega arith;
    physical_limit = omega arith;
    finds = finds;
  }
