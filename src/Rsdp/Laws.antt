-- ===== src/Rsdp/Laws.antt =====
-- Which entry the search finds.
use uefi_bootloader.Prelude.{
  ℕ, ◌≡◌, refl, inl, inr, Option, none, some, List, [], ◌∷◌, ◌==◌, if◌then◌else◌, Bool-cases,
}
use uefi_bootloader.Rsdp.{ConfigTableEntry, find, get_rsdp_address}

-- The addresses of the entries with a GUID, in order.
unfoldable pub addresses : ℕ → List ConfigTableEntry → List ℕ
addresses guid [] = []
addresses guid (entry ∷ entries) =
    let rest = addresses guid entries in if entry.guid == guid then entry.address ∷ rest else rest

abbrev pub first : List ℕ → Option ℕ
first [] = none
first (a ∷ rest) = some a

module _ (acpi2_guid acpi_guid : ℕ) where
  -- `get_rsdp_address` returns the address of the first ACPI 2 entry, and nothing when the table has
  -- no ACPI 2 entry, whatever ACPI 1 entries it has: the search for those goes on where the first
  -- search ended, which is the end.
  pub get_rsdp_address-eq :
      (entries : List ConfigTableEntry)
      → get_rsdp_address acpi2_guid acpi_guid entries ≡ first (addresses acpi2_guid entries)
  unfolding get_rsdp_address find addresses
  get_rsdp_address-eq [] = refl
  get_rsdp_address-eq (entry ∷ entries) = elim (Bool-cases (entry.guid == acpi2_guid)) [
    | inl e ↦ rw e
    | inr e ↦ rw e (get_rsdp_address-eq entries)
  ]
