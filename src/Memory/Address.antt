-- ===== src/Memory/Address.antt =====
-- `implement_address!` of uefi-bootloader/src/memory.rs: `VirtualAddress` and `PhysicalAddress`.
-- An address is a struct of one `usize`, which stands for it here.
pub mod Laws
use uefi_bootloader.Prelude.{ℕ, ◌-◌, ◌%◌, ◌^◌, ◌≤◌, ◌<◌, ◌≡◌, ◌↔◌, Bool, true, Option, none, some}
use uefi_bootloader.Prelude.{bit_and, if◌then◌else◌, saturating_add, saturating_sub}

abbrev pub page_size : ℕ
page_size = 4096

-- What the macro takes from the architecture, with what the rest of the program relies on. Below
-- `limit` every address is canonical.
pub record AddressSpace : Type 0 where
  pub is_canonical : ℕ → Bool
  pub canonicalize : ℕ → ℕ
  pub limit : ℕ
  pub limit-le : limit ≤ 2 ^ 64
  pub canonicalize-lt : (a : ℕ) → a < 2 ^ 64 → canonicalize a < 2 ^ 64
  pub canonicalize_below : (a : ℕ) → a < limit → canonicalize a ≡ a
  pub canonicalize_twice : (a : ℕ) → a < 2 ^ 64 → canonicalize (canonicalize a) ≡ canonicalize a
  pub canonicalize-mod : (a : ℕ) → a < 2 ^ 64 → canonicalize a % 4096 ≡ a % 4096
  pub is_canonical_iff : (a : ℕ) → a < 2 ^ 64 → (is_canonical a ≡ true) ↔ (canonicalize a ≡ a)

abbrev pub Address : Type 0
Address = ℕ

module _ (space : AddressSpace) where
  unfoldable pub new : ℕ → Option Address
  new addr = if space.is_canonical addr then some addr else none

  unfoldable pub new_canonical : ℕ → Address
  new_canonical addr = space.canonicalize addr

  -- `page_offset` and `frame_offset`
  unfoldable pub offset : Address → ℕ
  offset a = bit_and a (page_size - 1)

  -- `Add<usize>`, and `AddAssign<usize>` with its result stored
  unfoldable pub add : Address → ℕ → Address
  unfolding new_canonical
  add a rhs = new_canonical (saturating_add a rhs)

  -- `Sub<usize>`, and `SubAssign<usize>`
  unfoldable pub sub : Address → ℕ → Address
  unfolding new_canonical
  sub a rhs = new_canonical (saturating_sub a rhs)
