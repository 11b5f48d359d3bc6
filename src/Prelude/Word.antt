-- ===== src/Prelude/Word.antt =====
-- `usize` and `u64` on a 64-bit target, as numbers below `2 ^ 64`. Plain arithmetic wraps, as it
-- does in a build without overflow checks; shifts are by a constant.
use Prim.Native.Nat.{ℕ, ◌+◌, ◌-◌, ◌*◌, ◌/◌, ◌%◌, ◌^◌, min}
use Prim.Native.Nat.{bit_xor}
use uefi_bootloader.Prelude.Tests.{ltb, if◌then◌else◌}

abbrev pub word : ℕ
word = 2 ^ 64

abbrev pub usize_max : ℕ
usize_max = 2 ^ 64 - 1

infixl 65 ◌+w◌ ◌-w◌
infixl 70 ◌*w◌
abbrev pub ◌+w◌ : ℕ → ℕ → ℕ
a +w b = (a + b) % 2 ^ 64

abbrev pub ◌-w◌ : ℕ → ℕ → ℕ
a -w b = (a + 2 ^ 64 - b) % 2 ^ 64

abbrev pub ◌*w◌ : ℕ → ℕ → ℕ
a *w b = (a * b) % 2 ^ 64

abbrev pub saturating_add : ℕ → ℕ → ℕ
saturating_add a b = min usize_max (a + b)

abbrev pub saturating_sub : ℕ → ℕ → ℕ
saturating_sub a b = a - b

infixl 75 ◌<<<◌ ◌>>>◌
abbrev pub ◌<<<◌ : ℕ → ℕ → ℕ
x <<< k = x * 2 ^ k % 2 ^ 64

abbrev pub ◌>>>◌ : ℕ → ℕ → ℕ
x >>> k = x / 2 ^ k

-- `(x as isize >> k) as usize`: the sign bit fills the top.
abbrev pub shift_right_signed : ℕ → ℕ → ℕ
shift_right_signed x k = if ltb x (2 ^ 63) then x / 2 ^ k else x / 2 ^ k + (2 ^ 64 - 2 ^ (64 - k))

-- `!x`
abbrev pub bit_not : ℕ → ℕ
bit_not x = bit_xor x usize_max
