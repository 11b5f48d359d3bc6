-- ===== src/Memory/Chunk.antt =====
-- `implement_page_frame!` of uefi-bootloader/src/memory.rs: `Page` and `Frame`. A page or frame is
-- a struct of one number, which stands for it here.
pub mod Laws
use uefi_bootloader.Prelude.{
  ℕ, ◌+◌, ◌-◌, ◌/◌, min, Option, none, some, leb, if◌then◌else◌, usize_max, ◌*w◌, saturating_add,
  saturating_sub,
}
use uefi_bootloader.Memory.Address.{AddressSpace, Address, page_size, new_canonical}

-- `MAX_PAGE_NUMBER`
abbrev pub max_page_number : ℕ
max_page_number = usize_max / page_size

abbrev pub Chunk : Type 0
Chunk = ℕ

unfoldable pub start_address : AddressSpace → Chunk → Address
unfolding new_canonical
start_address space number = new_canonical space (number *w page_size)

unfoldable pub containing_address : Address → Chunk
containing_address addr = addr / page_size

-- `Add<usize>` and `AddAssign<usize>`
unfoldable pub add : Chunk → ℕ → Chunk
add number rhs = min max_page_number (saturating_add number rhs)

-- `Sub<usize>` and `SubAssign<usize>`
unfoldable pub sub : Chunk → ℕ → Chunk
sub number rhs = saturating_sub number rhs

-- `Step`, by that of `usize`
pub steps_between : Chunk → Chunk → Option ℕ
steps_between start end = if leb start end then some (end - start) else none

unfoldable pub forward_checked : Chunk → ℕ → Option Chunk
forward_checked start count = if leb (start + count) usize_max then some (start + count) else none

pub backward_checked : Chunk → ℕ → Option Chunk
backward_checked start count = if leb count start then some (start - count) else none
