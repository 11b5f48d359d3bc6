-- ===== src/Arch/Aarch64/Mapper/Recursive.antt =====
-- `Mapper::new`, `frame` and `set_up_arch_specific_mappings` of
-- uefi-bootloader/src/arch/aarch64/memory.rs.
use uefi_bootloader.Prelude.{
  ℕ, ◌*◌, ◌^◌, ◌≤◌, ◌<◌, ◌≡◌, refl, ap, ◌∙◌, inl, inr, true, ◌&&◌, Option, none, some, [], ◌∷◌,
  arith, ◌==◌, ==→≡, ==→≢, Bool-cases, length, Outcome, ◌>>=◌, expect, ok,
}
use mathlib.Core.Path.{subst}
use uefi_bootloader.Memory.Address.{Address, new_canonical}
use uefi_bootloader.Memory.Chunk.{Chunk, start_address, containing_address}
use uefi_bootloader.Arch.{BitField}
use uefi_bootloader.Arch.Aarch64.Canonical.{physical_space, physical_closed}
use uefi_bootloader.Arch.Aarch64.Flags as Flags
use uefi_bootloader.Arch.Aarch64.Flags.{
  PteFlags, present, page_descriptor, writable, accessed, no_execute,
}
use uefi_bootloader.Arch.Aarch64.Entry.{
  p0_index, p1_index, p2_index, p3_index, p0_index-p3_index, PageTableEntry, is_unused,
  as_page_table, set_entry, output_address-set_entry,
}
use uefi_bootloader.Arch.Aarch64.Mapper.{
  Tables, Mapper, write, zero_table, frame, set_up_arch_specific_mappings, new,
}
use uefi_bootloader.Arch.Aarch64.Mapper.Tree.{
  Place, Places, InTree, put, follow, entry_of, IsTree, SameWalks,
}
use uefi_bootloader.Arch.Aarch64.Mapper.Supply.{Fresh, Fresh-put}
use uefi_bootloader.Arch.Aarch64.Mapper.Step.{start_lem}
use uefi_bootloader.Arch.Aarch64.Mapper.Maps.{InReach, IsMapper}
use uefi_bootloader.FrameAllocator.Source.{FrameAllocator, IsQueue}
use uefi_bootloader.FrameAllocator.Draw.{Allocates, got, out, allocates}

module _ (bits : BitField) (places : Places) (tables : Tables) (root : Address)
    (tree : IsTree bits places tables root) (e : PageTableEntry) where
  beside :
      (x : Address) (π : Place) (i : ℕ)
      → places x ≡ some π
      → InTree π i
      → write tables root 510 e x i ≡ tables x i
  beside x π i h within = elim (Bool-cases ((x == root) && (i == 510))) [
    | inl f ↦
        let s : x ≡ root = ==→≡ x root (ground arith) in
        let t : i ≡ 510 = ==→≡ i 510 (ground arith) in
        absurd (within (cc (h, tree.root_at, ap places s)) t)
    | inr f ↦ rw f
  ]

  beside-SameWalks : SameWalks bits places tables (write tables root 510 e)
  unfolding follow
  beside-SameWalks [] x π i h depth within bound below = beside x π i h within
  beside-SameWalks (j ∷ js) x π i h depth within bound below =
      rw (beside x π i h within) (elim (Bool-cases (is_unused bits (tables x i))) [
        | inl u ↦ rw u
        | inr u ↦ rw u (
            beside-SameWalks js (as_page_table bits (tables x i)) (i ∷ π) j
              (tree.child x π i h (omega (arith, depth)) bound within u) (omega (arith, depth))
              (λ z. absurd (cc z)) below.0 below.1)
      ])

  beside-IsTree : IsTree bits places (write tables root 510 e) root
  beside-IsTree = record {
    root_at = tree.root_at;
    child = λ x π i h short bound within used.
        let same = beside x π i h within in
        rw same (tree.child x π i h short bound within (rw same at used));
  }

set_up_leads_back :
    (bits : BitField) (m : Mapper) (f : Chunk)
    → m.level_zero_page_table ≡ f * 4096
    → f < 2 ^ 36
    → as_page_table bits ((set_up_arch_specific_mappings bits m).tables (f * 4096) 510) ≡ f * 4096
unfolding set_up_arch_specific_mappings frame containing_address new_canonical physical_space
    Flags.new present page_descriptor writable accessed no_execute
set_up_leads_back bits m f e h =
    let flags : PteFlags = 0x0060_0000_0000_0403 in
    let number : containing_address (new_canonical (physical_space bits) (f * 4096)) ≡ f =
      omega (arith, physical_closed (f * 4096)) in
    let self : (f * 4096 == f * 4096) ≡ true = ground arith in
    rw (e, self)
      (ap (λ x. as_page_table bits (set_entry bits x flags)) number
        ∙ (output_address-set_entry bits f flags h (omega arith) refl).0)

module _ (bits : BitField) (a : FrameAllocator) (q : IsQueue a) where
  open q use {left}

  pub set_up_IsMapper :
      (m : Mapper) (s : a.State)
      → IsMapper bits a q m s
      → IsMapper bits a q (set_up_arch_specific_mappings bits m) s
  unfolding set_up_arch_specific_mappings
  set_up_IsMapper m s i = record {
    places = i.places;
    tree = beside-IsTree bits i.places m.tables m.level_zero_page_table i.tree _;
    supply = i.supply;
  }

  pub set_up_entry_of :
      (m : Mapper) (s : a.State) (c : Chunk)
      → IsMapper bits a q m s
      → InReach c
      → entry_of bits (set_up_arch_specific_mappings bits m) c ≡ entry_of bits m c
  unfolding set_up_arch_specific_mappings entry_of
  set_up_entry_of m s c i h =
      let below = p0_index-p3_index c h.0 in
      beside-SameWalks bits i.places m.tables m.level_zero_page_table i.tree _
        (p1_index c ∷ p2_index c ∷ p3_index c ∷ []) m.level_zero_page_table [] (p0_index c)
        i.tree.root_at refl (λ z. h.1) below.1 (below.2, (below.3, (below.4, tt)))

  -- On a mapper whose tables are a tree and whose root is a frame below `2 ^ 36`,
  -- `set_up_arch_specific_mappings` makes the entry 510 of the root lead back to the root; every page
  -- of a canonical address outside that entry keeps its entry, and the tables stay a tree.
  pub set_up_arch_specific_mappings-IsMapper :
      (m : Mapper) (f : Chunk) (s : a.State) (c : Chunk)
      → IsMapper bits a q m s
      → m.level_zero_page_table ≡ f * 4096
      → f < 2 ^ 36
      → InReach c
      → (as_page_table bits ((set_up_arch_specific_mappings bits m).tables (f * 4096) 510)
          ≡ f * 4096)
        × (entry_of bits (set_up_arch_specific_mappings bits m) c ≡ entry_of bits m c)
        × IsMapper bits a q (set_up_arch_specific_mappings bits m) s
  set_up_arch_specific_mappings-IsMapper m f s c i e h reach =
      (set_up_leads_back bits m f e h, set_up_entry_of m s c i reach, set_up_IsMapper m s i)

  -- The mapper that `new` makes of the first frame left: an empty tree.
  pub record News (s : a.State) (r : Outcome (Mapper × a.State)) : Type 0 where
    pub mapper : Mapper
    pub after : a.State
    pub root : Chunk
    pub returns : r ≡ ok (mapper, after)
    pub taken : left s ≡ root ∷ left after
    pub small : root < 2 ^ 36
    pub at : mapper.level_zero_page_table ≡ root * 4096
    pub is_root : frame bits mapper ≡ root
    pub valid : IsMapper bits a q mapper after
    pub empty : (c : Chunk) → entry_of bits mapper c ≡ 0

  module _ (tables : Tables) (s s' : a.State) (f : Chunk) (v : q.Valid s')
      (l : left s ≡ f ∷ left s') (fresh : Fresh (λ x. none) (f ∷ left s')) where
    abbrev pub made : Mapper
    made = record { tables = zero_table tables (f * 4096); level_zero_page_table = f * 4096 }

    zero_at : (i : ℕ) → made.tables (f * 4096) i ≡ 0
    zero_at i = ground arith

    pub made-IsTree : IsTree bits (put (λ x. none) (f * 4096) []) made.tables (f * 4096)
    unfolding is_unused
    made-IsTree = record {
      root_at = ground arith;
      child = λ x π i h short bound within used. elim (Bool-cases (x == f * 4096)) [
        | inl e ↦
            absurd (omega (arith, ==→≢ _ 0 used, ap (λ y. made.tables y i) (==→≡ x _ e), zero_at i))
        | inr e ↦ absurd (cc (rw e at h))
      ];
    }

    pub made_empty : (c : Chunk) → entry_of bits made c ≡ 0
    unfolding entry_of follow is_unused
    made_empty c = rw (zero_at (p0_index c)) refl

    made_frame : frame bits made ≡ f
    unfolding frame containing_address new_canonical physical_space
    made_frame = omega (arith, physical_closed (f * 4096), fresh.0)

    made_News : News s (ok (made, s'))
    made_News = record {
      mapper = made;
      after = s';
      root = f;
      returns = refl;
      taken = l;
      small = fresh.0;
      at = refl;
      is_root = made_frame;
      valid = record {
        places = put (λ x. none) (f * 4096) [];
        tree = made-IsTree;
        supply = record { valid = v; fresh = Fresh-put (λ x. none) f [] (left s') fresh.2 fresh.3 };
      };
      empty = made_empty;
    }

  abbrev newly : Tables → a.State × Option Chunk → Outcome (Mapper × a.State)
  newly tables g = expect g.1 >>= λ f.
      let address = start_address (physical_space bits) f in
      ok (record { tables = zero_table tables address; level_zero_page_table = address }, g.0)

  newly-News :
      (tables : Tables) (s : a.State) (g : a.State × Option Chunk)
      → Fresh (λ x. none) (left s)
      → 1 ≤ length (left s)
      → Allocates a q s g
      → News s (newly tables g)
  newly-News tables s _ fresh n (got s' f v l) =
      let fresh' = subst (Fresh (λ x. none)) l fresh in
      rw (start_lem bits f fresh'.0) (made_News tables s s' f v l fresh')
  newly-News tables s _ fresh n (out s' l) = absurd (omega (arith, ap length l, n))

  -- `new`, with a frame left: it takes the first one, and makes a mapper whose root is that frame,
  -- whose tables are a tree, and which maps no page.
  pub new-News :
      (tables : Tables) (s : a.State)
      → q.Valid s
      → Fresh (λ x. none) (left s)
      → 1 ≤ length (left s)
      → News s (new bits a tables s)
  unfolding new
  new-News tables s v fresh n = newly-News tables s (a.allocate_frame s) fresh n (allocates a q s v)
