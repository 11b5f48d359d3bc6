-- ===== src/Arch/Aarch64/Mapper/Maps.antt =====
-- `Mapper::map` of uefi-bootloader/src/arch/aarch64/memory.rs, on mappers whose tables are a tree.
use uefi_bootloader.Prelude.{
  ℕ, ◌^◌, ◌≤◌, ◌<◌, ◌≡◌, refl, sym, ◌∙◌, ◌≢◌, inl, inr, true, [], ◌∷◌, arith, ltb, ◌==◌,
  if◌then◌else◌, ==→≡, ==→≢, Bool-cases, length, Outcome, ok,
}
use uefi_bootloader.Memory.Address.{Address}
use uefi_bootloader.Memory.Chunk.{Chunk}
use uefi_bootloader.Arch.{BitField}
use uefi_bootloader.Arch.Aarch64.Flags.{PteFlags, page_descriptor, accessed}
use uefi_bootloader.Arch.Aarch64.Entry.{
  p0_index, p1_index, p2_index, p3_index, p0_index-p3_index, PageTableEntry, set_entry,
}
use uefi_bootloader.Arch.Aarch64.Mapper.{
  Tables, Mapper, write, page_table_flags, create_next_table, map_page,
}
use uefi_bootloader.Arch.Aarch64.Mapper.Tree.{Places, entry_of, IsTree}
use uefi_bootloader.Arch.Aarch64.Mapper.Leaf.{leaf-IsTree}
use uefi_bootloader.Arch.Aarch64.Mapper.Supply.{Supply}
use uefi_bootloader.Arch.Aarch64.Mapper.Step.{create_next_table-Creates}
use uefi_bootloader.FrameAllocator.Source.{FrameAllocator, IsQueue}
use uefi_bootloader.FrameAllocator.Draw.{Drops, Drops-trans, length-Drops}
use uefi_bootloader.Arch.Aarch64.Mapper.Path.{Path3, walk_here, walk_elsewhere}

-- The page is that of a canonical address, and not one of those that the recursive entry maps.
abbrev pub InReach : Chunk → Type 0
InReach c = (c < 2 ^ 36) × (p0_index c ≢ 510)

-- The entry that `map` writes.
unfoldable pub leaf : BitField → Chunk → PteFlags → PageTableEntry
unfolding set_entry accessed page_descriptor
leaf bits frame flags = set_entry bits frame (page_descriptor (accessed flags true) true)

same_indices :
    (c d : Chunk)
    → c < 2 ^ 36
    → d < 2 ^ 36
    → p0_index c ≡ p0_index d
    → p1_index c ≡ p1_index d
    → p2_index c ≡ p2_index d
    → p3_index c ≡ p3_index d
    → c ≡ d
same_indices c d hc hd e0 e1 e2 e3 =
    omega (arith, p0_index-p3_index c hc, p0_index-p3_index d hd, e0, e1, e2, e3)

module _ (bits : BitField) (a : FrameAllocator) (q : IsQueue a) where
  open q use {left}

  -- The tables are a tree, and the frames to come can extend it.
  pub record IsMapper (m : Mapper) (s : a.State) : Type 0 where
    pub places : Places
    pub tree : IsTree bits places m.tables m.level_zero_page_table
    pub supply : Supply bits a q places s

  -- A call that returns, with at most three frames taken; every page in reach but this one keeps its
  -- entry.
  pub record Maps (m : Mapper) (page frame : Chunk) (flags : PteFlags) (s : a.State)
      (r : Outcome (Mapper × a.State)) : Type 0 where
    pub mapper : Mapper
    pub after : a.State
    pub returns : r ≡ ok (mapper, after)
    pub valid : IsMapper mapper after
    pub drops : Drops 3 (left s) (left after)
    pub entries :
        (c : Chunk)
        → InReach c
        → entry_of bits mapper c ≡ (if c == page then leaf bits frame flags else entry_of bits m c)

  module _ (m : Mapper) (page frame : Chunk) (flags : PteFlags) (s : a.State) (i : IsMapper m s)
      (reach : InReach page) where
    abbrev pub Walk : Type 0
    Walk =
        Path3 bits a q i.places m.tables m.level_zero_page_table (p0_index page) (p1_index page)
          (p2_index page) s

    abbrev create : Tables → Address → ℕ → a.State → Outcome (Tables × Address × a.State)
    create tables table index s = create_next_table bits a tables table index page_table_flags s

    -- The path is what the three calls made.
    pub record Walked : Type 0 where
      pub path : Walk
      first : path.r1 ≡ create m.tables m.level_zero_page_table (p0_index page) s
      second : path.r2 ≡ create path.one.new_tables path.one.address (p1_index page) path.one.after
      third : path.r3 ≡ create path.two.new_tables path.two.address (p2_index page) path.two.after

    pub walked : 3 ≤ length (left s) → Walked
    walked n =
        let below = p0_index-p3_index page reach.0 in
        let root = m.level_zero_page_table in
        let one =
          create_next_table-Creates bits a q i.places m.tables root root [] (p0_index page) s i.tree
            i.tree.root_at (omega arith) below.1 (λ z. reach.1) i.supply (omega (arith, n)) in
        let two =
          create_next_table-Creates bits a q one.new_places one.new_tables root one.address
            (p0_index page ∷ []) (p1_index page) one.after one.tree one.here (omega arith) below.2
            (λ z. absurd (cc z)) one.supply (omega (arith, n, length-Drops one.drops)) in
        let three =
          create_next_table-Creates bits a q two.new_places two.new_tables root two.address
            (p1_index page ∷ p0_index page ∷ []) (p2_index page) two.after two.tree two.here
            (omega arith) below.3 (λ z. absurd (cc z)) two.supply
            (omega (arith, n, length-Drops one.drops, length-Drops two.drops)) in
        record {
          path = record { r1 = _; one = one; r2 = _; two = two; r3 = _; three = three };
          first = refl;
          second = refl;
          third = refl;
        }

    module _ (w : Walked) where
      abbrev pub e : PageTableEntry
      e = leaf bits frame flags

      abbrev pub mapped : Mapper
      mapped = record m {
        tables = write w.path.three.new_tables w.path.three.address (p3_index page) e;
      }

      pub mapped-returns : map_page bits a m page frame flags s ≡ ok (mapped, w.path.three.after)
      unfolding map_page leaf
      mapped-returns =
          let in_range : ltb (p3_index page) 512 ≡ true =
            ground (arith, p0_index-p3_index page reach.0) in
          rw
            (
              sym w.first ∙ w.path.one.returns,
              sym w.second ∙ w.path.two.returns,
              sym w.third ∙ w.path.three.returns,
              in_range,
            )
            refl

      pub mapped_entries :
          (c : Chunk)
          → InReach c
          → entry_of bits mapped c ≡ (if c == page then e else entry_of bits m c)
      unfolding entry_of
      mapped_entries c h = elim (Bool-cases (c == page)) [
        | inl f ↦
            rw (f, ==→≡ c page f)
              (walk_here bits a q i.places m.tables m.level_zero_page_table (p0_index page)
                (p1_index page) (p2_index page) s (p3_index page) i.tree w.path e)
        | inr f ↦ rw f (
            let below = p0_index-p3_index c h.0 in
            walk_elsewhere bits a q i.places m.tables m.level_zero_page_table (p0_index page)
              (p1_index page) (p2_index page) s (p3_index page) i.tree w.path e (p0_index c)
              (p1_index c) (p2_index c) (p3_index c) h.1 below.1 below.2 below.3 below.4
              (λ z. ==→≢ c page f (same_indices c page h.0 reach.0 (cc z) (cc z) (cc z) (cc z))))
      ]

      abbrev pub mapped-IsMapper : IsMapper mapped w.path.three.after
      mapped-IsMapper = record {
        places = w.path.three.new_places;
        tree =
            leaf-IsTree bits w.path.three.new_places w.path.three.new_tables m.level_zero_page_table
              w.path.three.tree w.path.three.address
              (p2_index page ∷ p1_index page ∷ p0_index page ∷ []) (p3_index page) e
              w.path.three.here refl;
        supply = w.path.three.supply;
      }

      abbrev pub mapped-Maps : Maps m page frame flags s (map_page bits a m page frame flags s)
      mapped-Maps = record {
        mapper = mapped;
        after = w.path.three.after;
        returns = mapped-returns;
        valid = mapped-IsMapper;
        drops = Drops-trans (Drops-trans w.path.one.drops w.path.two.drops) w.path.three.drops;
        entries = mapped_entries;
      }

    -- `map`, on a mapper whose tables are a tree, with three frames left that are no tables, and on
    -- a page of a canonical address outside the recursive entry: it returns, the page has the entry
    -- of the frame and the flags, every other such page keeps its entry, the tables are a tree
    -- again, and at most three frames are gone.
    pub map_page-Maps :
        3 ≤ length (left s) → Maps m page frame flags s (map_page bits a m page frame flags s)
    map_page-Maps n = mapped-Maps (walked n)
