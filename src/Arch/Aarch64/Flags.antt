-- ===== src/Arch/Aarch64/Flags.antt =====
-- `PteFlags` of uefi-bootloader/src/arch/aarch64/memory.rs: a page table entry's flags, a struct of
-- one 64-bit word, which stands for it here.
use uefi_bootloader.Prelude.{ℕ, ◌^◌, ◌<◌, bit_or, Bool, true, false, not, arith, ◌<<<◌}
use uefi_bootloader.Arch.Fields.{assign, SetsField, filled, on, off}

abbrev pub PteFlags : Type 0
PteFlags = ℕ

unfoldable pub new : PteFlags
new = 0

unfoldable pub present : PteFlags → Bool → PteFlags
present flags enable = assign (1 <<< 0) flags enable

unfoldable pub page_descriptor : PteFlags → Bool → PteFlags
page_descriptor flags enable = assign (1 <<< 1) flags enable

-- The bit says that the page is read-only.
unfoldable pub writable : PteFlags → Bool → PteFlags
writable flags enable = assign (1 <<< 7) flags (not enable)

unfoldable pub accessed : PteFlags → Bool → PteFlags
accessed flags enable = assign (1 <<< 10) flags enable

unfoldable pub no_execute : PteFlags → Bool → PteFlags
no_execute flags enable = assign (bit_or (1 <<< 53) (1 <<< 54)) flags enable

-- Each setter overwrites its own bits, with ones or zeros as `enable` says (`writable` the other way
-- round), and leaves every other bit of the 64-bit word as it was.
pub present-SetsField :
    (f : PteFlags) (e : Bool)
    → f < 2 ^ 64
    → SetsField 0 1 (filled 1 e) f (present f e)
      × SetsField 1 1 (filled 1 e) f (page_descriptor f e)
      × SetsField 7 1 (filled 1 (not e)) f (writable f e)
      × SetsField 10 1 (filled 1 e) f (accessed f e)
      × SetsField 53 2 (filled 2 e) f (no_execute f e)
unfolding present page_descriptor writable accessed no_execute
present-SetsField f true h = (
  omega (arith, on 0 1 f),
  omega (arith, on 1 1 f),
  omega (arith, off 8 56 7 f (omega arith)),
  omega (arith, on 10 1 f),
  omega (arith, on 53 2 f),
)
present-SetsField f false h = (
  omega (arith, off 1 63 0 f (omega arith)),
  omega (arith, off 2 62 1 f (omega arith)),
  omega (arith, on 7 1 f),
  omega (arith, off 11 53 10 f (omega arith)),
  omega (arith, off 55 9 53 f (omega arith)),
)
