-- ===== src/Arch/Tests.antt =====
-- Runs of the address functions of both architectures.
use uefi_bootloader.Prelude.{
  ℕ, ◌+◌, ◌-◌, ◌*◌, ◌^◌, ◌<◌, ◌≡◌, refl, true, false, not, ◌||◌, arith, ltb, leb, ok,
}
use uefi_bootloader.Arch.BitRanges.{bit_ranges}
use uefi_bootloader.Arch.X86
use uefi_bootloader.Arch.Canonical.{only_if, new_accepts}
use uefi_bootloader.Arch.X86.Canonical as X86Space
use uefi_bootloader.Arch.Aarch64.Canonical as Aarch64Space
use uefi_bootloader.Memory.Address.{new}
use uefi_bootloader.Arch.X86.Canonical.{sign_extend, canonicalize_virtual_address-sign_extend}
use uefi_bootloader.Arch.Aarch64
use uefi_bootloader.Arch.Fields.{SetsField, filled}
use uefi_bootloader.Arch.Aarch64.Flags as Aarch64Flags
use uefi_bootloader.Arch.Aarch64.Flags.{present-SetsField}
use uefi_bootloader.Arch.Aarch64.Entry.{
  p0_index, p1_index, p2_index, p3_index, p0_index-p3_index, as_page_table, output_address,
  is_unused, set_entry, output_address-set_entry,
}
use uefi_bootloader.Arch.X86.Flags as X86Flags
use uefi_bootloader.Arch.X86.Flags.{PageTableFlags, no_execute-SetsField}

-- Bit 47 decides.
extended : X86.canonicalize_virtual_address 0x0000_8000_0000_1234 ≡ 0xFFFF_8000_0000_1234
unfolding X86.canonicalize_virtual_address
extended = refl

cleared : X86.canonicalize_virtual_address 0x1234_7FFF_0000_0000 ≡ 0x0000_7FFF_0000_0000
unfolding X86.canonicalize_virtual_address
cleared = refl

in_the_hole : X86.is_canonical_virtual_address bit_ranges 0x0000_8000_0000_0000 ≡ false
unfolding X86.is_canonical_virtual_address
in_the_hole = refl

-- aarch64 has no upper half.
no_upper_half : Aarch64.is_canonical_virtual_address bit_ranges 0xFFFF_8000_0000_0000 ≡ false
unfolding Aarch64.is_canonical_virtual_address
no_upper_half = refl

canonicalize_virtual_address-sign_extend_example :
    sign_extend bit_ranges 0xFFFF_0000_0000 ≡ ok (X86.canonicalize_virtual_address 0xFFFF_0000_0000)
canonicalize_virtual_address-sign_extend_example =
    canonicalize_virtual_address-sign_extend bit_ranges 0xFFFF_0000_0000 (omega arith)

abbrev high : ℕ
high = 0xFFFF_8000_0000_1234

new_accepts_example :
    (new (X86Space.virtual_space bit_ranges) high
      ≡ only_if (ltb high (2 ^ 47) || leb (2 ^ 64 - 2 ^ 47) high) high)
    × (new (X86Space.physical_space bit_ranges) high ≡ only_if (ltb high (2 ^ 52)) high)
    × (new (Aarch64Space.virtual_space bit_ranges) high ≡ only_if (ltb high (2 ^ 48)) high)
    × (new (Aarch64Space.physical_space bit_ranges) high ≡ only_if (ltb high (2 ^ 48)) high)
new_accepts_example = new_accepts bit_ranges high (omega arith)

-- The bits that the x86_64 architecture assigns.
abbrev page_table_flags : PageTableFlags
page_table_flags = record {
  present = 1;
  writable = 2;
  no_execute = 2 ^ 63;
  present_lem = refl;
  writable_lem = refl;
  no_execute_lem = refl;
}

no_execute-SetsField_example :
    SetsField 0 1 (filled 1 true) 2 (X86Flags.present page_table_flags 2 true)
    × SetsField 1 1 (filled 1 true) 2 (X86Flags.writable page_table_flags 2 true)
    × SetsField 63 1 (filled 1 true) 2 (X86Flags.no_execute page_table_flags 2 true)
no_execute-SetsField_example = no_execute-SetsField page_table_flags 2 true (omega arith)

present-SetsField_example :
    SetsField 0 1 (filled 1 false) 0x401 (Aarch64Flags.present 0x401 false)
    × SetsField 1 1 (filled 1 false) 0x401 (Aarch64Flags.page_descriptor 0x401 false)
    × SetsField 7 1 (filled 1 (not false)) 0x401 (Aarch64Flags.writable 0x401 false)
    × SetsField 10 1 (filled 1 false) 0x401 (Aarch64Flags.accessed 0x401 false)
    × SetsField 53 2 (filled 2 false) 0x401 (Aarch64Flags.no_execute 0x401 false)
present-SetsField_example = present-SetsField 0x401 false (omega arith)

p0_index-p3_index_example :
    (p0_index 0x1234567 * 2 ^ 27
        + p1_index 0x1234567 * 2 ^ 18
        + p2_index 0x1234567 * 2 ^ 9
        + p3_index 0x1234567
      ≡ 0x1234567)
    × (p0_index 0x1234567 < 512)
    × (p1_index 0x1234567 < 512)
    × (p2_index 0x1234567 < 512)
    × (p3_index 0x1234567 < 512)
p0_index-p3_index_example = p0_index-p3_index 0x1234567 (omega arith)

output_address-set_entry_example :
    (as_page_table bit_ranges (set_entry bit_ranges 0x1234 3) ≡ 0x1234 * 4096)
    × (output_address bit_ranges (set_entry bit_ranges 0x1234 3) ≡ 0x1234 * 4096)
    × (is_unused bit_ranges (set_entry bit_ranges 0x1234 3) ≡ false)
output_address-set_entry_example =
    output_address-set_entry bit_ranges 0x1234 3 (omega arith) (omega arith) refl
