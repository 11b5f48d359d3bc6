-- ===== src/Rsdp.antt =====
-- `get_rsdp_address` of uefi-bootloader/src/main.rs: the search of the firmware's configuration table
-- for the ACPI root pointer. The GUIDs are constants of the crate `uefi`, numbers here.
pub mod Laws
mod Tests
use uefi_bootloader.Prelude.{ℕ, Option, none, some, List, [], ◌∷◌, ◌==◌, if◌then◌else◌}

pub record ConfigTableEntry : Type 0 where
  pub guid : ℕ
  pub address : ℕ

-- `find` on an iterator: the first entry with the GUID, and what the iterator has left.
unfoldable pub find : ℕ → List ConfigTableEntry → Option ConfigTableEntry × List ConfigTableEntry
find guid [] = (none, [])
find guid (entry ∷ entries) =
    if entry.guid == guid then (some entry, entries) else find guid entries

-- `found.or_else(|| config_entries.find(…))`, with the iterator as the first search left it.
abbrev pub or_find : ℕ → Option ConfigTableEntry × List ConfigTableEntry → Option ConfigTableEntry
or_find guid (some entry, rest) = some entry
or_find guid (none, rest) = (find guid rest).0

abbrev pub address_of : Option ConfigTableEntry → Option ℕ
address_of none = none
address_of (some entry) = some entry.address

module _ (acpi2_guid acpi_guid : ℕ) where
  unfoldable pub get_rsdp_address : List ConfigTableEntry → Option ℕ
  get_rsdp_address config_entries = address_of (or_find acpi_guid (find acpi2_guid config_entries))
