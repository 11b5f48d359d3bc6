-- ===== src/Arch/Aarch64/Mapper/Leaf.antt =====
-- A write to an entry of the last level, as `Mapper::map` of
-- uefi-bootloader/src/arch/aarch64/memory.rs makes it.
use uefi_bootloader.Prelude.{
  ℕ, ◌+◌, ◌<◌, ◌≡◌, ap, ◌≢◌, inl, inr, ◌&&◌, some, List, [], ◌∷◌, arith, ◌==◌, ==→≡, Bool-cases,
  length, All,
}
use mathlib.Core.Path.{ap₂}
use uefi_bootloader.Memory.Address.{Address}
use uefi_bootloader.Arch.{BitField}
use uefi_bootloader.Arch.Aarch64.Entry.{PageTableEntry, is_unused, as_page_table}
use uefi_bootloader.Arch.Aarch64.Mapper.{Tables, write}
use uefi_bootloader.Arch.Aarch64.Mapper.Tree.{Place, Places, InTree, onto, follow, IsTree}

module _ (bits : BitField) (places : Places) (tables : Tables) (root : Address)
    (tree : IsTree bits places tables root) (a3 : Address) (π3 : Place) (i3 : ℕ)
    (e : PageTableEntry) (at : places a3 ≡ some π3) (last : length π3 ≡ 3) where
  pub not_here :
      (a : Address) (π : Place) (i : ℕ)
      → places a ≡ some π
      → length π < 3
      → write tables a3 i3 e a i ≡ tables a i
  not_here a π i h short = elim (Bool-cases (a == a3)) [
    | inl f ↦
        let s : a ≡ a3 = ==→≡ a a3 f in
        let same : π ≡ π3 = cc (h, at, ap places s) in absurd (omega (arith, ap length same, last))
    | inr f ↦ rw f
  ]

  pub other_walks :
      (js : List ℕ) (a : Address) (π : Place) (i : ℕ)
      → places a ≡ some π
      → length π + length js ≡ 3
      → InTree π i
      → i < 512
      → All (λ j. j < 512) js
      → onto π i js ≢ i3 ∷ π3
      → follow bits (write tables a3 i3 e) a i js ≡ follow bits tables a i js
  unfolding follow onto
  other_walks [] a π i h depth within bound below apart =
      elim (Bool-cases ((a == a3) && (i == i3))) [
        | inl f ↦
            let s : a ≡ a3 = ==→≡ a a3 (ground arith) in
            let t : i ≡ i3 = ==→≡ i i3 (ground arith) in
            let same : π ≡ π3 = cc (h, at, ap places s) in
            absurd (apart (ap₂ (λ x y. x ∷ y) t same))
        | inr f ↦ rw f
      ]
  other_walks (j ∷ js) a π i h depth within bound below apart =
      rw (not_here a π i h (omega (arith, depth)))
        (elim (Bool-cases (is_unused bits (tables a i))) [
          | inl u ↦ rw u
          | inr u ↦ rw u (
              other_walks js (as_page_table bits (tables a i)) (i ∷ π) j
                (tree.child a π i h (omega (arith, depth)) bound within u) (omega (arith, depth))
                (λ z. absurd (cc z)) below.0 below.1 apart)
        ])

  pub leaf-IsTree : IsTree bits places (write tables a3 i3 e) root
  leaf-IsTree = record {
    root_at = tree.root_at;
    child = λ a π i h short bound within used.
        let same = not_here a π i h short in
        rw same (tree.child a π i h short bound within (rw same at used));
  }
