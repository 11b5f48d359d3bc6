-- ===== src/Arch/Aarch64/Mapper/Path.antt =====
-- The walk to a page after `Mapper::map` of uefi-bootloader/src/arch/aarch64/memory.rs has made its tables.
use uefi_bootloader.Prelude.{
  ℕ, ◌<◌, ◌≡◌, refl, ap, ◌∙◌, ◌≢◌, false, some, List, [], ◌∷◌, arith, length, All, Outcome,
}
use uefi_bootloader.Memory.Address.{Address}
use uefi_bootloader.Arch.{BitField}
use uefi_bootloader.Arch.Aarch64.Entry.{PageTableEntry, is_unused, as_page_table}
use uefi_bootloader.Arch.Aarch64.Mapper.{Tables, write}
use uefi_bootloader.Arch.Aarch64.Mapper.Tree.{Place, Places, onto, follow, IsTree}
use uefi_bootloader.Arch.Aarch64.Mapper.Leaf.{not_here, other_walks}
use uefi_bootloader.Arch.Aarch64.Mapper.Supply.{Creates}
use uefi_bootloader.FrameAllocator.Source.{FrameAllocator, IsQueue}

module _ (bits : BitField) (tables : Tables) (a b : Address) (i j : ℕ) (js : List ℕ) where
  follow_used :
      is_unused bits (tables a i) ≡ false
      → as_page_table bits (tables a i) ≡ b
      → follow bits tables a i (j ∷ js) ≡ follow bits tables b j js
  unfolding follow
  follow_used u e = rw (u, e) refl

module _ (bits : BitField) (a : FrameAllocator) (q : IsQueue a) (places : Places) (tables : Tables)
    (root : Address) (i0 i1 i2 : ℕ) (s : a.State) where
  -- The three tables below the root on the way to a page.
  pub record Path3 : Type 0 where
    pub r1 : Outcome (Tables × Address × a.State)
    pub one : Creates bits a q places tables root root [] i0 s r1
    pub r2 : Outcome (Tables × Address × a.State)
    pub two :
        Creates bits a q one.new_places one.new_tables root one.address (i0 ∷ []) i1 one.after r2
    pub r3 : Outcome (Tables × Address × a.State)
    pub three :
        Creates bits a q two.new_places two.new_tables root two.address
          (i1 ∷ i0 ∷ [])
          i2
          two.after
          r3

  module _ (i3 : ℕ) (tree : IsTree bits places tables root) (p : Path3) (e : PageTableEntry) where
    abbrev final : Tables
    final = write p.three.new_tables p.three.address i3 e

    untouched :
        (x : Address) (π : Place) (i : ℕ)
        → p.three.new_places x ≡ some π
        → length π < 3
        → final x i ≡ p.three.new_tables x i
    untouched =
        not_here bits p.three.new_places p.three.new_tables root p.three.tree p.three.address
          (i2 ∷ i1 ∷ i0 ∷ []) i3 e p.three.here refl

    at_root : final root i0 ≡ p.one.new_tables root i0
    at_root =
        let from_one = p.two.keeps root [] i0 p.one.tree.root_at p.one.used in
        untouched root [] i0 p.three.tree.root_at (omega arith)
        ∙ p.three.keeps root [] i0 p.two.tree.root_at (ap (is_unused bits) from_one ∙ p.one.used)
        ∙ from_one

    at_one : final p.one.address i1 ≡ p.two.new_tables p.one.address i1
    at_one =
        let here = p.two.extends p.one.address (i0 ∷ []) p.one.here in
        untouched p.one.address (i0 ∷ []) i1 (p.three.extends p.one.address (i0 ∷ []) here)
          (omega arith)
        ∙ p.three.keeps p.one.address (i0 ∷ []) i1 here p.two.used

    at_two : final p.two.address i2 ≡ p.three.new_tables p.two.address i2
    at_two =
        untouched p.two.address (i1 ∷ i0 ∷ []) i2
          (p.three.extends p.two.address (i1 ∷ i0 ∷ []) p.two.here) (omega arith)

    at_three : final p.three.address i3 ≡ e
    at_three = ground arith

    pub walk_here : follow bits final root i0 (i1 ∷ i2 ∷ i3 ∷ []) ≡ e
    walk_here =
        follow_used bits final root p.one.address i0 i1 (i2 ∷ i3 ∷ [])
          (ap (is_unused bits) at_root ∙ p.one.used) (ap (as_page_table bits) at_root ∙ p.one.leads)
        ∙ follow_used bits final p.one.address p.two.address i1 i2 (i3 ∷ [])
            (ap (is_unused bits) at_one ∙ p.two.used) (ap (as_page_table bits) at_one ∙ p.two.leads)
        ∙ follow_used bits final p.two.address p.three.address i2 i3 []
            (ap (is_unused bits) at_two ∙ p.three.used)
            (ap (as_page_table bits) at_two ∙ p.three.leads)
        ∙ (unfold follow in at_three)

    pub walk_elsewhere :
        (j0 j1 j2 j3 : ℕ)
        → j0 ≢ 510
        → j0 < 512
        → j1 < 512
        → j2 < 512
        → j3 < 512
        → j3 ∷ j2 ∷ j1 ∷ j0 ∷ [] ≢ i3 ∷ i2 ∷ i1 ∷ i0 ∷ []
        → follow bits final root j0 (j1 ∷ j2 ∷ j3 ∷ [])
          ≡ follow bits tables root j0 (j1 ∷ j2 ∷ j3 ∷ [])
    unfolding onto
    walk_elsewhere j0 j1 j2 j3 within h0 h1 h2 h3 apart =
        let js = j1 ∷ j2 ∷ j3 ∷ [] in
        let below : All (λ j. j < 512) js = (h1, (h2, (h3, tt))) in
        other_walks bits p.three.new_places p.three.new_tables root p.three.tree p.three.address
          (i2 ∷ i1 ∷ i0 ∷ []) i3 e p.three.here refl js root [] j0 p.three.tree.root_at refl
          (λ z. within) h0 below apart
        ∙ p.three.walks js root [] j0 p.two.tree.root_at refl (λ z. within) h0 below
        ∙ p.two.walks js root [] j0 p.one.tree.root_at refl (λ z. within) h0 below
        ∙ p.one.walks js root [] j0 tree.root_at refl (λ z. within) h0 below
