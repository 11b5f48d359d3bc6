-- ===== src/Arch/Aarch64/Mapper/Beside.antt =====
-- Two mappers of uefi-bootloader/src/arch/aarch64/memory.rs whose tables stand in one memory.
use uefi_bootloader.Prelude.{
  ℕ, ◌*◌, ◌≤◌, ◌≡◌, refl, sym, ap, ◌∙◌, ◌≢◌, inl, inr, false, none, some, List, [], ◌∷◌, ◌++◌,
  arith, ◌==◌, ==→≡, Bool-cases, Option-cases, length, All,
}
use mathlib.Core.Path.{subst}
use uefi_bootloader.Memory.Address.{Address}
use uefi_bootloader.Memory.Chunk.{Chunk}
use uefi_bootloader.Arch.{BitField}
use uefi_bootloader.Arch.Aarch64.Flags.{PteFlags}
use uefi_bootloader.Arch.Aarch64.Entry.{
  p0_index, p1_index, p2_index, p3_index, p0_index-p3_index, is_unused, as_page_table,
}
use uefi_bootloader.Arch.Aarch64.Mapper.{Tables, Mapper, map_page}
use uefi_bootloader.Arch.Aarch64.Mapper.Tree.{Place, Places, IsTree, SameWalks, follow, entry_of}
use uefi_bootloader.Arch.Aarch64.Mapper.Supply.{Fresh}
use uefi_bootloader.Arch.Aarch64.Mapper.Maps.{
  InReach, IsMapper, Maps, Walked, walked, mapped, mapped-IsMapper, mapped-Maps,
}
use uefi_bootloader.FrameAllocator.Source.{FrameAllocator, IsQueue}
use uefi_bootloader.FrameAllocator.Draw.{Drops}

All-later : (P : Chunk → Type 0) (xs ys : List Chunk) → All P (xs ++ ys) → All P ys
All-later P [] ys h = h
All-later P (x ∷ xs) ys h = All-later P xs ys h.1

Fresh-later : (places : Places) (xs ys : List Chunk) → Fresh places (xs ++ ys) → Fresh places ys
Fresh-later places [] ys h = h
Fresh-later places (x ∷ xs) ys h = Fresh-later places xs ys h.3

pub All-Drops : (P : Chunk → Type 0) {n : ℕ} {x y : List Chunk} → Drops n x y → All P x → All P y
All-Drops P {n} {x} {y} d h = All-later P d.taken y (subst (All P) d.split h)

-- A table in use is none of the frames to come.
Fresh-apart :
    (places : Places) (fs : List Chunk) (x : Address) (π : Place)
    → Fresh places fs
    → places x ≡ some π
    → All (λ f. x ≢ f * 4096) fs
Fresh-apart places [] x π h e = tt
Fresh-apart places (f ∷ fs) x π h e =
    ((λ z. cc (h.1, e, ap places z)), Fresh-apart places fs x π h.3 e)

module _ (bits : BitField) where
  -- Memory in which the tables in use are the same.
  abbrev pub SameTables : Places → Tables → Tables → Type 0
  SameTables places tables tables' =
      (x : Address) (π : Place) (i : ℕ) → places x ≡ some π → tables' x i ≡ tables x i

  pub IsTree-same :
      (places : Places) (tables tables' : Tables) (root : Address)
      → SameTables places tables tables'
      → IsTree bits places tables root
      → IsTree bits places tables' root
  IsTree-same places tables tables' root same t = record {
    root_at = t.root_at;
    child = λ a π i at short bound within used.
        let e = same a π i at in
        let used' : is_unused bits (tables a i) ≡ false = ap (is_unused bits) (sym e) ∙ used in
        ap (λ x. places (as_page_table bits x)) e ∙ t.child a π i at short bound within used';
  }

  follow-same :
      (places : Places) (tables tables' : Tables) (root : Address)
      → SameTables places tables tables'
      → IsTree bits places tables root
      → SameWalks bits places tables tables'
  unfolding follow
  follow-same places tables tables' root same t [] a π i at depth within bound below = same a π i at
  follow-same places tables tables' root same t (j ∷ js) a π i at depth within bound below =
      rw (same a π i at) (elim (Bool-cases (is_unused bits (tables a i))) [
        | inl u ↦ rw u refl
        | inr u ↦ rw u (
            follow-same places tables tables' root same t js (as_page_table bits (tables a i))
              (i ∷ π) j (t.child a π i at (omega (arith, depth)) bound within u)
              (omega (arith, depth)) (λ e. absurd (cc e)) below.0 below.1)
      ])

  pub entry_of-same :
      (places : Places) (m : Mapper) (tables' : Tables) (c : Chunk)
      → SameTables places m.tables tables'
      → IsTree bits places m.tables m.level_zero_page_table
      → InReach c
      → entry_of bits (record m { tables = tables' }) c ≡ entry_of bits m c
  unfolding entry_of
  entry_of-same places m tables' c same t reach =
      let below = p0_index-p3_index c reach.0 in
      follow-same places m.tables tables' m.level_zero_page_table same t
        (p1_index c ∷ p2_index c ∷ p3_index c ∷ []) m.level_zero_page_table [] (p0_index c)
        t.root_at (omega arith) (λ z. reach.1) below.1 (below.2, (below.3, (below.4, tt)))

  module _ (a : FrameAllocator) (q : IsQueue a) where
    open q use {left}

    -- Both are valid, in the same memory, and no table is in use by both. To be valid means that the
    -- tables are a tree without block entries, and that the frames to come are none of them; the tables
    -- of the firmware are taken to be such.
    pub record IsBeside (k l : Mapper) (s : a.State) : Type 0 where
      pub one : IsMapper bits a q k s
      pub two : IsMapper bits a q l s
      pub same : k.tables ≡ l.tables
      pub apart : (x : Address) (π : Place) → two.places x ≡ some π → one.places x ≡ none

    pub IsBeside-swap : (k l : Mapper) (s : a.State) → IsBeside k l s → IsBeside l k s
    IsBeside-swap k l s h = record {
      one = h.two;
      two = h.one;
      same = sym h.same;
      apart = λ x π e. elim (Option-cases (h.two.places x)) [
        | inl none_here ↦ none_here
        | inr some_here ↦ absurd (cc (h.apart x some_here.0 some_here.1, e))
      ];
    }

    -- Memory outside the tables of the first mapper, and outside of the frames to come.
    outside :
        (m : Mapper) (page f : Chunk) (flags : PteFlags) (s : a.State) (i : IsMapper bits a q m s)
        (reach : InReach page) (w : Walked bits a q m page f flags s i reach) (x : Address) (n : ℕ)
        → i.places x ≡ none
        → All (λ f. x ≢ f * 4096) (left s)
        → (w.path.three.new_places x ≡ none)
          × ((mapped bits a q m page f flags s i reach w).tables x n ≡ m.tables x n)
    outside m page f flags s i reach w x n free far =
        let far1 = All-Drops (λ f. x ≢ f * 4096) w.path.one.drops far in
        let far2 = All-Drops (λ f. x ≢ f * 4096) w.path.two.drops far1 in
        let o1 = w.path.one.outside x n free far in
        let o2 = w.path.two.outside x n o1.0 far1 in
        let o3 = w.path.three.outside x n o2.0 far2 in
        let other : (x == w.path.three.address) ≡ false =
          elim (Bool-cases (x == w.path.three.address)) [
            | inl e ↦ absurd (cc (w.path.three.here, o3.0, ap w.path.three.new_places (==→≡ x _ e)))
            | inr e ↦ e
          ] in
        (o3.0, rw other (o3.1 ∙ o2.1 ∙ o1.1))

    -- What `map` of the one leaves of the other.
    pub record Leaves (k l : Mapper) (page f : Chunk) (flags : PteFlags) (s : a.State)
        : Type 0 where
      pub maps : Maps bits a q k page f flags s (map_page bits a k page f flags s)
      pub beside : IsBeside maps.mapper (record l { tables = maps.mapper.tables }) maps.after
      pub others :
          (c : Chunk)
          → InReach c
          → entry_of bits (record l { tables = maps.mapper.tables }) c ≡ entry_of bits l c

    pub map_page-Leaves :
        (k l : Mapper) (page f : Chunk) (flags : PteFlags) (s : a.State)
        → IsBeside k l s
        → InReach page
        → 3 ≤ length (left s)
        → Leaves k l page f flags s
    map_page-Leaves k l page f flags s h reach n =
        let w = walked bits a q k page f flags s h.one reach n in
        let m = mapped bits a q k page f flags s h.one reach w in
        let maps = mapped-Maps bits a q k page f flags s h.one reach w in
        let drops = maps.drops in
        let here : (x : Address) (π : Place) (i : ℕ)
            → h.two.places x ≡ some π
            → (w.path.three.new_places x ≡ none) × (m.tables x i ≡ k.tables x i) =
          λ x π i at.
            outside k page f flags s h.one reach w x i (h.apart x π at)
              (Fresh-apart h.two.places (left s) x π h.two.supply.fresh at) in
        let same : SameTables h.two.places l.tables m.tables =
          λ x π i at. (here x π i at).1 ∙ ap (λ t. t x i) h.same in
        record {
          maps = maps;
          beside = record {
            one = mapped-IsMapper bits a q k page f flags s h.one reach w;
            two = record {
              places = h.two.places;
              tree =
                  IsTree-same h.two.places l.tables m.tables l.level_zero_page_table same
                    h.two.tree;
              supply = record {
                valid = w.path.three.supply.valid;
                fresh =
                    Fresh-later h.two.places drops.taken (left w.path.three.after)
                      (subst (Fresh h.two.places) drops.split h.two.supply.fresh);
              };
            };
            same = refl;
            apart = λ x π e. (here x π 0 e).0;
          };
          others = λ c r. entry_of-same h.two.places l m.tables c same h.two.tree r;
        }
