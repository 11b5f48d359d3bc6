-- ===== src/Arch/Aarch64/Mapper/Tree.antt =====
-- The tables of uefi-bootloader/src/arch/aarch64/memory.rs as a tree: what a walk from the root finds,
-- and the invariant.
use uefi_bootloader.Prelude.{
  ℕ, ◌+◌, ◌<◌, ◌≡◌, ◌≢◌, false, Option, some, List, [], ◌∷◌, ◌==◌, if◌then◌else◌, length, All,
}
use uefi_bootloader.Memory.Address.{Address}
use uefi_bootloader.Memory.Chunk.{Chunk}
use uefi_bootloader.Arch.{BitField}
use uefi_bootloader.Arch.Aarch64.Entry.{
  p0_index, p1_index, p2_index, p3_index, PageTableEntry, is_unused, as_page_table,
}
use uefi_bootloader.Arch.Aarch64.Mapper.{Tables, Mapper}

-- The place of a table: the indices that lead to it, the last one first. The root's is `[]`.
abbrev pub Place : Type 0
Place = List ℕ

-- The places of the tables in use; what stands elsewhere in memory is no table.
abbrev pub Places : Type 0
Places = Address → Option Place

abbrev pub put : Places → Address → Place → Places
put places a π b = if b == a then some π else places b

-- The entry of the root that leads back to the root is left out of the tree.
abbrev pub InTree : Place → ℕ → Type 0
InTree π i = π ≡ [] → i ≢ 510

-- The place of the entry that a walk from the place `π` with these indices ends at.
unfoldable pub onto : Place → ℕ → List ℕ → Place
onto π i [] = i ∷ π
onto π i (j ∷ js) = onto (i ∷ π) j js

module _ (bits : BitField) where
  -- What a walk from a table finds by the indices of the levels: an entry, or the unused one.
  unfoldable pub follow : Tables → Address → ℕ → List ℕ → PageTableEntry
  follow tables a i [] = tables a i
  follow tables a i (j ∷ js) =
      if is_unused bits (tables a i)
      then 0
      else follow tables (as_page_table bits (tables a i)) j js

  -- The entry that maps a page, unused if none does.
  unfoldable pub entry_of : Mapper → Chunk → PageTableEntry
  entry_of m c =
      follow m.tables m.level_zero_page_table (p0_index c)
        (p1_index c ∷ p2_index c ∷ p3_index c ∷ [])

  -- Each table in use has one place, and a used entry of the first three levels leads to the table
  -- at the place below it.
  pub record IsTree (places : Places) (tables : Tables) (root : Address) : Type 0 where
    pub root_at : places root ≡ some []
    pub child :
        (a : Address) (π : Place) (i : ℕ)
        → places a ≡ some π
        → length π < 3
        → i < 512
        → InTree π i
        → is_unused bits (tables a i) ≡ false
        → places (as_page_table bits (tables a i)) ≡ some (i ∷ π)

  -- Every walk finds the same.
  abbrev pub SameWalks : Places → Tables → Tables → Type 0
  SameWalks places tables tables' =
      (js : List ℕ) (a : Address) (π : Place) (i : ℕ)
      → places a ≡ some π
      → length π + length js ≡ 3
      → InTree π i
      → i < 512
      → All (λ j. j < 512) js
      → follow tables' a i js ≡ follow tables a i js
