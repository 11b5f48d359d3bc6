-- ===== src/Arch/Aarch64/Mapper/Supply.antt =====
-- The frames that `create_next_table` of uefi-bootloader/src/arch/aarch64/memory.rs takes its tables
-- from, and what it promises.
use uefi_bootloader.Prelude.{
  ℕ, ◌*◌, ◌^◌, ◌<◌, ◌≡◌, ◌≢◌, false, none, some, List, [], ◌∷◌, arith, ◌==◌, All, Outcome, ok,
}
use uefi_bootloader.Memory.Address.{Address}
use uefi_bootloader.Memory.Chunk.{Chunk}
use uefi_bootloader.Arch.{BitField}
use uefi_bootloader.Arch.Aarch64.Entry.{is_unused, as_page_table}
use uefi_bootloader.Arch.Aarch64.Mapper.{Tables}
use uefi_bootloader.Arch.Aarch64.Mapper.Tree.{Place, Places, put, IsTree, SameWalks}
use uefi_bootloader.FrameAllocator.Source.{FrameAllocator, IsQueue}
use uefi_bootloader.FrameAllocator.Draw.{Drops}

-- The frames to come lie below `2 ^ 48`, are no tables, and differ from each other.
abbrev pub Fresh : Places → List Chunk → Type 0
Fresh places [] = Unit
Fresh places (f ∷ fs) =
    (f < 2 ^ 36) × (places (f * 4096) ≡ none) × All (λ g. g ≢ f) fs × Fresh places fs

pub Fresh-put :
    (places : Places) (f : Chunk) (π : Place) (fs : List Chunk)
    → All (λ g. g ≢ f) fs
    → Fresh places fs
    → Fresh (put places (f * 4096) π) fs
Fresh-put places f π [] h k = tt
Fresh-put places f π (g ∷ gs) h k =
    let apart : (g * 4096 == f * 4096) ≡ false = ground (arith, h.0) in
    (k.0, rw apart k.1, k.2, Fresh-put places f π gs h.1 k.3)

module _ (bits : BitField) (a : FrameAllocator) (q : IsQueue a) where
  open q use {Valid, left}

  -- The supply of frames.
  pub record Supply (places : Places) (s : a.State) : Type 0 where
    pub valid : Valid s
    pub fresh : Fresh places (left s)

  pub record Creates (places : Places) (tables : Tables) (root table : Address) (π : Place)
      (index : ℕ) (s : a.State) (r : Outcome (Tables × Address × a.State)) : Type 0 where
    pub new_tables : Tables
    pub address : Address
    pub after : a.State
    pub new_places : Places
    pub returns : r ≡ ok (new_tables, address, after)
    pub tree : IsTree bits new_places new_tables root
    pub walks : SameWalks bits places tables new_tables
    pub extends : (x : Address) (ρ : Place) → places x ≡ some ρ → new_places x ≡ some ρ
    pub here : new_places address ≡ some (index ∷ π)
    pub used : is_unused bits (new_tables table index) ≡ false
    pub leads : as_page_table bits (new_tables table index) ≡ address
    pub keeps :
        (x : Address) (ρ : Place) (i : ℕ)
        → places x ≡ some ρ
        → is_unused bits (tables x i) ≡ false
        → new_tables x i ≡ tables x i
    pub outside :
        (x : Address) (i : ℕ)
        → places x ≡ none
        → All (λ f. x ≢ f * 4096) (left s)
        → (new_places x ≡ none) × (new_tables x i ≡ tables x i)
    pub supply : Supply new_places after
    pub drops : Drops 1 (left s) (left after)
