-- ===== src/Api/Names.antt =====
-- `Module::name` and `ElfSection::name` of uefi-bootloader-api/src/lib.rs. `Utf8` stands for the text of
-- `core::str`.
use uefi_bootloader.Prelude.{
  ℕ, suc, Option, none, some, List, [], ◌∷◌, ◌==◌, if◌then◌else◌, length, take, Outcome, expect,
}
use uefi_bootloader.Api.{ElfSection}
use uefi_bootloader.Modules.{Module}

pub record Utf8 : Type 1 where
  pub Str : Type 0
  pub from_utf8 : List ℕ → Option Str

-- `.iter().position(|byte| *byte == 0)`
abbrev pub position_of_zero : List ℕ → Option ℕ
position_of_zero [] = none
position_of_zero (b ∷ bs) =
    if b == 0 then some 0 else elim (position_of_zero bs) [ none ↦ none | some i ↦ some (suc i) ]

-- `.unwrap_or(…)`
abbrev pub unwrap_or : Option ℕ → ℕ → ℕ
unwrap_or none d = d
unwrap_or (some i) d = i

module _ (utf8 : Utf8) where
  -- `Module::name`
  unfoldable pub module_name : Module → Outcome utf8.Str
  module_name m =
      let end = unwrap_or (position_of_zero m.name) (length m.name) in
      expect (utf8.from_utf8 (take end m.name))

  -- `ElfSection::name`
  unfoldable pub section_name : ElfSection → Outcome utf8.Str
  section_name s =
      let end = unwrap_or (position_of_zero s.name) (length s.name) in
      expect (utf8.from_utf8 (take end s.name))
