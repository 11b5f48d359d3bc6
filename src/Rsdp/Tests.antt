-- ===== src/Rsdp/Tests.antt =====
-- A table with both kinds of entries, and one with the older kind alone.
use uefi_bootloader.Prelude.{◌≡◌, refl, none, some, List, [], ◌∷◌}
use uefi_bootloader.Rsdp.{ConfigTableEntry, find, get_rsdp_address}
use uefi_bootloader.Rsdp.Laws.{first, addresses, get_rsdp_address-eq}

abbrev both : List ConfigTableEntry
both =
    record { guid = 1; address = 0x1000 }
    ∷ record { guid = 2; address = 0x2000 }
    ∷ record { guid = 2; address = 0x3000 }
    ∷ []

abbrev old : List ConfigTableEntry
old = record { guid = 1; address = 0x1000 } ∷ []

newer : get_rsdp_address 2 1 both ≡ some 0x2000
unfolding get_rsdp_address find
newer = refl

-- The older entry is there and is not found.
older_missed : get_rsdp_address 2 1 old ≡ none
unfolding get_rsdp_address find
older_missed = refl

get_rsdp_address-eq_example : get_rsdp_address 2 1 both ≡ first (addresses 2 both)
get_rsdp_address-eq_example = get_rsdp_address-eq 2 1 both
