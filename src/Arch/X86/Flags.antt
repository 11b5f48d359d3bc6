-- ===== src/Arch/X86/Flags.antt =====
-- `PteFlags` of uefi-bootloader/src/arch/x86_64/memory.rs: a page table entry's flags, a struct of
-- one 64-bit word, which stands for it here. `PageTableFlags` stands for the constants that it takes
-- of the crate `x86_64`, one bit of the word each.
use uefi_bootloader.Prelude.{ℕ, ◌^◌, ◌<◌, ◌≡◌, Bool, true, false, arith}
use uefi_bootloader.Arch.Fields.{assign, SetsField, filled, on, off}

pub record PageTableFlags : Type 0 where
  pub present : ℕ
  pub writable : ℕ
  pub no_execute : ℕ
  pub present_lem : present ≡ 2 ^ 0
  pub writable_lem : writable ≡ 2 ^ 1
  pub no_execute_lem : no_execute ≡ 2 ^ 63

abbrev pub PteFlags : Type 0
PteFlags = ℕ

unfoldable pub new : PteFlags
new = 0

module _ (bits : PageTableFlags) where
  unfoldable pub present : PteFlags → Bool → PteFlags
  present flags enable = assign bits.present flags enable

  unfoldable pub writable : PteFlags → Bool → PteFlags
  writable flags enable = assign bits.writable flags enable

  unfoldable pub no_execute : PteFlags → Bool → PteFlags
  no_execute flags enable = assign bits.no_execute flags enable

  -- Each setter overwrites its own bit, with one or zero as `enable` says, and leaves every other bit
  -- of the 64-bit word as it was.
  pub no_execute-SetsField :
      (f : PteFlags) (e : Bool)
      → f < 2 ^ 64
      → SetsField 0 1 (filled 1 e) f (present f e)
        × SetsField 1 1 (filled 1 e) f (writable f e)
        × SetsField 63 1 (filled 1 e) f (no_execute f e)
  unfolding present writable no_execute
  no_execute-SetsField f true h =
      rw (bits.present_lem, bits.writable_lem, bits.no_execute_lem)
        (omega (arith, on 0 1 f), omega (arith, on 1 1 f), omega (arith, on 63 1 f))
  no_execute-SetsField f false h =
      rw (bits.present_lem, bits.writable_lem, bits.no_execute_lem)
        (
          omega (arith, off 1 63 0 f (omega arith)),
          omega (arith, off 2 62 1 f (omega arith)),
          omega (arith, off 64 0 63 f (omega arith)),
        )
