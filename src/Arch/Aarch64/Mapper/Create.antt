-- ===== src/Arch/Aarch64/Mapper/Create.antt =====
-- A new table below an unused entry, as `create_next_table` of
-- uefi-bootloader/src/arch/aarch64/memory.rs makes it.
use uefi_bootloader.Prelude.{
  ℕ, ◌<◌, ◌≡◌, refl, ap, ◌∙◌, inl, inr, Bool, true, false, ◌&&◌, none, some, List, [], ◌∷◌, arith,
  ◌==◌, ==→≡, Bool-cases, length,
}
use mathlib.Core.Path.{ap₂}
use uefi_bootloader.Memory.Address.{Address}
use uefi_bootloader.Arch.{BitField}
use uefi_bootloader.Arch.Aarch64.Entry.{PageTableEntry, is_unused, as_page_table}
use uefi_bootloader.Arch.Aarch64.Mapper.{Tables, write, zero_table}
use uefi_bootloader.Arch.Aarch64.Mapper.Tree.{Place, Places, put, InTree, follow, IsTree, SameWalks}

-- An unused entry at `a0`, and an address `b` of no table, that the new entry leads to.
pub record Grows (bits : BitField) (places : Places) (tables : Tables) (a0 : Address) (π0 : Place)
    (i0 : ℕ) (b : Address) (e : PageTableEntry) : Type 0 where
  pub at : places a0 ≡ some π0
  pub short : length π0 < 3
  pub unused : is_unused bits (tables a0 i0) ≡ true
  pub fresh : places b ≡ none
  pub leads : as_page_table bits e ≡ b
  pub used : is_unused bits e ≡ false

module _ (bits : BitField) (places : Places) (tables : Tables) (a0 : Address) (π0 : Place) (i0 : ℕ)
    (b : Address) (e : PageTableEntry) (g : Grows bits places tables a0 π0 i0 b e) where
  abbrev grown : Tables
  grown = write (zero_table tables b) a0 i0 e

  is_unused-zero : is_unused bits 0 ≡ true
  unfolding is_unused
  is_unused-zero = refl

  eq_of_unused : (x : PageTableEntry) → is_unused bits x ≡ true → x ≡ 0
  unfolding is_unused
  eq_of_unused x h = ==→≡ x 0 h

  same_place : (a : Address) (π : Place) → places a ≡ some π → (a == b) ≡ false
  same_place a π h = elim (Bool-cases (a == b)) [
    | inl f ↦ let s : a ≡ b = ==→≡ a b f in absurd (cc (g.fresh, h, ap places s))
    | inr f ↦ f
  ]

  -- An entry of an old table is the old one, unless it is the new one.
  old_entry :
      (a : Address) (π : Place) (i : ℕ)
      → places a ≡ some π
      → ((a == a0) && (i == i0)) ≡ false
      → grown a i ≡ tables a i
  old_entry a π i h other = rw (other, same_place a π h)

  new_entry_at : grown a0 i0 ≡ e
  new_entry_at = ground arith

  in_new : (i : ℕ) → grown b i ≡ 0
  in_new i =
      let apart : (b == a0) ≡ false = elim (Bool-cases (b == a0)) [
        | inl f ↦ let s : b ≡ a0 = ==→≡ b a0 f in absurd (cc (g.fresh, g.at, ap places s))
        | inr f ↦ f
      ] in
      rw apart (ground arith)

  empty_table : (i : ℕ) (js : List ℕ) → follow bits grown b i js ≡ 0
  unfolding follow
  empty_table i [] = in_new i
  empty_table i (j ∷ js) = rw (in_new i, is_unused-zero)

  -- The entry that was written, at an address and an index that pass the test.
  both_of : (x y : Bool) → (x && y) ≡ true → (x ≡ true) × (y ≡ true)
  both_of x y h = ground arith

  entry_here : (a : Address) (i : ℕ) → ((a == a0) && (i == i0)) ≡ true → grown a i ≡ e
  entry_here a i f =
      let both = both_of (a == a0) (i == i0) f in
      ap₂ grown (==→≡ a a0 both.0) (==→≡ i i0 both.1) ∙ new_entry_at

  module _ (root : Address) (tree : IsTree bits places tables root) where
    pub grown-SameWalks : SameWalks bits places tables grown
    unfolding follow
    grown-SameWalks [] a π i h depth within bound below =
        old_entry a π i h (elim (Bool-cases (a == a0)) [
          | inl f ↦
              let s : a ≡ a0 = ==→≡ a a0 f in
              let same : π ≡ π0 = cc (h, g.at, ap places s) in
              absurd (omega (arith, ap length same, g.short))
          | inr f ↦ rw f
        ])
    grown-SameWalks (j ∷ js) a π i h depth within bound below =
        elim (Bool-cases ((a == a0) && (i == i0))) [
          | inl f ↦
              let both = both_of (a == a0) (i == i0) f in
              let old : is_unused bits (tables a i) ≡ true =
                ap (is_unused bits) (ap₂ tables (==→≡ a a0 both.0) (==→≡ i i0 both.1)) ∙ g.unused in
              rw (entry_here a i f, g.used, g.leads, old) (empty_table j js)
          | inr f ↦ rw (old_entry a π i h f) (elim (Bool-cases (is_unused bits (tables a i))) [
            | inl u ↦ rw u
            | inr u ↦ rw u (
                grown-SameWalks js (as_page_table bits (tables a i)) (i ∷ π) j
                  (tree.child a π i h (omega (arith, depth)) bound within u) (omega (arith, depth))
                  (λ e. absurd (cc e)) below.0 below.1)
          ])
        ]

    grown_child :
        (a : Address) (π : Place) (i : ℕ)
        → put places b (i0 ∷ π0) a ≡ some π
        → length π < 3
        → i < 512
        → InTree π i
        → is_unused bits (grown a i) ≡ false
        → put places b (i0 ∷ π0) (as_page_table bits (grown a i)) ≡ some (i ∷ π)
    grown_child a π i h short bound within used = elim (Bool-cases (a == b)) [
      | inl f ↦
          let s : a ≡ b = ==→≡ a b f in
          absurd (
            cc (
              used,
              ap (λ x. is_unused bits (grown x i)) s,
              ap (is_unused bits) (in_new i),
              is_unused-zero,
            ))
      | inr f ↦
          let h' : places a ≡ some π = rw f at h in
          elim (Bool-cases ((a == a0) && (i == i0))) [
            | inl here ↦
                let both = both_of (a == a0) (i == i0) here in
                let s : a ≡ a0 = ==→≡ a a0 both.0 in
                let t : i ≡ i0 = ==→≡ i i0 both.1 in
                let same : π ≡ π0 = cc (h', g.at, ap places s) in
                let self : (b == b) ≡ true = ground arith in
                rw (entry_here a i here, g.leads, self, t, same)
            | inr other ↦
                let old = old_entry a π i h' other in
                let used' : is_unused bits (tables a i) ≡ false = rw old at used in
                let below = tree.child a π i h' short bound within used' in
                rw (old, same_place (as_page_table bits (tables a i)) (i ∷ π) below) below
          ]
    ]

    pub grown-IsTree : IsTree bits (put places b (i0 ∷ π0)) grown root
    grown-IsTree = record {
      root_at = rw (same_place root [] tree.root_at) tree.root_at;
      child = grown_child;
    }
