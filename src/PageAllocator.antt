-- ===== src/PageAllocator.antt =====
-- `PageAllocator` of uefi-bootloader/src/arch/x86_64/memory.rs and of its aarch64 twin: which of the
-- 512 slots of 512 GiB of the virtual address space are taken. The two sources differ only in the
-- names of the field and of the index, and in how a slot becomes an address.
pub mod Windows
pub mod Slots
pub mod Place
pub mod Apart
pub mod X86
pub mod Aarch64
mod Tests
use uefi_bootloader.Prelude.{
  ℕ, zero, suc, ◌+◌, ◌-◌, ◌*◌, ◌/◌, bit_and, Bool, true, false, not, ◌&&◌, Option, none, some, List,
  [], ◌∷◌, ltb, leb, if◌then◌else◌, length, set, replicate, take, ◌+w◌, ◌>>>◌, Outcome, ◌>>=◌, ◌>>◌,
  expect, guard, ok, panic,
}
use uefi_bootloader.Memory.Address
use uefi_bootloader.Memory.Address.{AddressSpace}
use uefi_bootloader.Memory.Chunk.{Chunk, containing_address}

-- The fields of an ELF program header, a struct of the crate `goblin`.
pub record ProgramHeader : Type 0 where
  pub p_type : ℕ
  pub p_flags : ℕ
  pub p_offset : ℕ
  pub p_vaddr : ℕ
  pub p_paddr : ℕ
  pub p_filesz : ℕ
  pub p_memsz : ℕ

-- `level_4_entries`, or `level_0_entries`
pub record PageAllocator : Type 0 where
  pub entries : List Bool

unfoldable pub new : PageAllocator
new = record { entries = set (replicate 512 false) 0 true }

-- `p4_index` and `p0_index`
unfoldable pub top_index : Chunk → ℕ
top_index number = bit_and (number >>> 27) 0x1FF

-- `entries.windows(num)`
unfoldable pub windows : ℕ → List Bool → List (List Bool)
windows num [] = []
windows num (x ∷ xs) = if leb num (length (x ∷ xs)) then take num (x ∷ xs) ∷ windows num xs else []

-- `entries.iter().all(|used| !used)`
abbrev pub all_unused : List Bool → Bool
all_unused [] = true
all_unused (used ∷ xs) = not used && all_unused xs

-- The first number of the enumeration whose window passes the filter, from `idx` on.
unfoldable pub first_unused : ℕ → List (List Bool) → Option ℕ
first_unused idx [] = none
first_unused idx (w ∷ ws) = if all_unused w then some idx else first_unused (idx + 1) ws

-- `self.entries[i] = true;`
abbrev pub use_entry : List Bool → ℕ → Outcome (List Bool)
use_entry entries i = if ltb i (length entries) then ok (set entries i true) else panic

-- The same for `n` entries from `i` on.
unfoldable pub use_entries : List Bool → ℕ → ℕ → Outcome (List Bool)
use_entries entries i zero = ok entries
use_entries entries i (suc n) = use_entry entries i >>= λ entries'. use_entries entries' (i + 1) n

-- `windows` panics on windows of no entry.
unfoldable pub get_free_entries : PageAllocator → ℕ → Outcome (PageAllocator × ℕ)
get_free_entries s num = do
  guard (ltb 0 num)
  idx ← expect (first_unused 0 (windows num s.entries))
  entries ← use_entries s.entries idx num
  ok (record { entries = entries }, idx)

-- `LEVEL_4_SIZE`, or `LEVEL_0_SIZE`
abbrev pub slot_size : ℕ
slot_size = 4096 * 512 * 512 * 512

unfoldable pub slots_for : ℕ → ℕ
slots_for len = (len +w (slot_size - 1)) / slot_size

unfoldable pub mark_segment_as_used :
    AddressSpace → PageAllocator → ProgramHeader → Outcome PageAllocator
mark_segment_as_used space s segment = do
  let start = Address.new_canonical space segment.p_vaddr
  let end_inclusive = Address.sub space (Address.add space start segment.p_memsz) 1
  let first = top_index (containing_address start)
  let last = top_index (containing_address end_inclusive)
  entries ← use_entries s.entries first (last + 1 - first)
  ok (record { entries = entries })
