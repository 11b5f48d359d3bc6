-- ===== src/Prelude/Bits.antt =====
-- `&`, `|` and `^` at variables: each acts on the fields above and below a bit separately.
use Prim.Native.Nat.{ℕ, zero, suc, ◌+◌, ◌-◌, ◌*◌, ◌/◌, ◌%◌, ◌^◌, ◌≤◌, ◌<◌, min, max}
use Prim.Native.Nat.{bit_and, bit_or, digits, bitwise, bit_and-bitwise, bit_or-bitwise}
use mathlib.Core.Path.{◌≡◌, refl, sym, ap, ap₂, ◌∙◌}
use native.Mathlib.Nat.{one-le-pow, pow-suc, mod-lt, div-add-mod'}
use native.Mathlib.Omega.{arith}

-- The fuel of `digits` does not matter once it covers the first number.
module _ (z : ℕ → ℕ) (f : ℕ → ℕ → ℕ) where
  digits-digits : (m n a b : ℕ) → a ≤ m → a ≤ n → digits z f m a b ≡ digits z f n a b
  digits-digits zero zero zero b p q = refl
  digits-digits zero zero (suc a) b p q = refl
  digits-digits (suc m) zero zero b p q = refl
  digits-digits (suc m) zero (suc a) b p q = absurd (omega arith)
  digits-digits zero (suc n) zero b p q = refl
  digits-digits zero (suc n) (suc a) b p q = absurd (omega arith)
  digits-digits (suc m) (suc n) zero b p q = refl
  digits-digits (suc m) (suc n) (suc a) b p q =
      rw (digits-digits m n (suc a / 2) (b / 2) (omega arith) (omega arith))

  bitwise_half :
      (b a : ℕ)
      → bitwise z f (suc a / 2) (b / 2) * 2 + f (suc a % 2) (b % 2) ≡ bitwise z f (suc a) b
  bitwise_half b a =
      omega (arith, digits-digits (suc a / 2) a (suc a / 2) (b / 2) (omega arith) (omega arith))

pub bit_and_half : (a b : ℕ) → bit_and a b ≡ bit_and (a / 2) (b / 2) * 2 + min (a % 2) (b % 2)
bit_and_half zero b = simp bit_and-bitwise (omega arith)
bit_and_half (suc a) b = simp bit_and-bitwise (sym (bitwise_half (λ y. 0) min b a))

pub bit_or_half : (a b : ℕ) → bit_or a b ≡ bit_or (a / 2) (b / 2) * 2 + max (a % 2) (b % 2)
bit_or_half zero b = simp bit_or-bitwise (omega arith)
bit_or_half (suc a) b = simp bit_or-bitwise (sym (bitwise_half (λ y. y) max b a))

mul-pow-suc : (q k : ℕ) → q * 2 ^ suc k ≡ 2 * (q * 2 ^ k)
mul-pow-suc q k = omega (arith, ap (λ (t : ℕ). q * t) (pow-suc 2 k))

div_of_fields : (q : ℕ) {r m : ℕ} → r < m → (q * m + r) / m ≡ q
div_of_fields q {r} {m} h = grind arith

mod_of_fields : (q : ℕ) {r m : ℕ} → r < m → (q * m + r) % m ≡ r
mod_of_fields q {r} {m} h = grind arith

-- What holds of every operation that works digit by digit.
module _ (op f : ℕ → ℕ → ℕ) (op_zero : op 0 0 ≡ 0)
    (half : (a b : ℕ) → op a b ≡ op (a / 2) (b / 2) * 2 + f (a % 2) (b % 2))
    (digit : (a b : ℕ) → f (a % 2) (b % 2) ≤ 1) where
  op-lt : (k a b : ℕ) → a < 2 ^ k → b < 2 ^ k → op a b < 2 ^ k
  op-lt zero a b p q =
      let ea : a ≡ 0 = omega arith in
      let eb : b ≡ 0 = omega arith in rw (ea, eb, op_zero) (omega arith)
  op-lt (suc k) a b p q = omega (
    arith,
    half a b,
    digit a b,
    pow-suc 2 k,
    op-lt k (a / 2) (b / 2) (omega (arith, pow-suc 2 k)) (omega (arith, pow-suc 2 k)),
  )

  op_fields :
      (k a b c d : ℕ)
      → b < 2 ^ k
      → d < 2 ^ k
      → op (a * 2 ^ k + b) (c * 2 ^ k + d) ≡ op a c * 2 ^ k + op b d
  op_fields zero a b c d p q =
      let eb : b ≡ 0 = omega arith in
      let ed : d ≡ 0 = omega arith in
      let ea : a * 2 ^ 0 + 0 ≡ a = omega arith in
      let ec : c * 2 ^ 0 + 0 ≡ c = omega arith in rw (eb, ed, op_zero, ea, ec) (omega arith)
  op_fields (suc k) a b c d p q =
      let ea : (a * 2 ^ suc k + b) / 2 ≡ a * 2 ^ k + b / 2 = omega (arith, mul-pow-suc a k) in
      let ec : (c * 2 ^ suc k + d) / 2 ≡ c * 2 ^ k + d / 2 = omega (arith, mul-pow-suc c k) in
      let ma : (a * 2 ^ suc k + b) % 2 ≡ b % 2 = omega (arith, mul-pow-suc a k) in
      let mc : (c * 2 ^ suc k + d) % 2 ≡ d % 2 = omega (arith, mul-pow-suc c k) in
      rw (half (a * 2 ^ suc k + b) (c * 2 ^ suc k + d), ea, ec, ma, mc)
        (omega (
          arith,
          op_fields k a (b / 2) c (d / 2) (omega (arith, pow-suc 2 k)) (omega (arith, pow-suc 2 k)),
          half b d,
          mul-pow-suc (op a c) k,
        ))

  split_word : (k a : ℕ) → a / 2 ^ k * 2 ^ k + a % 2 ^ k ≡ a
  split_word k a = div-add-mod' a (2 ^ k)

  op_split : (k a b : ℕ) → op a b ≡ op (a / 2 ^ k) (b / 2 ^ k) * 2 ^ k + op (a % 2 ^ k) (b % 2 ^ k)
  op_split k a b =
      ap₂ op (sym (split_word k a)) (sym (split_word k b))
      ∙ op_fields k (a / 2 ^ k) (a % 2 ^ k) (b / 2 ^ k) (b % 2 ^ k)
          (mod-lt a (one-le-pow k 2 (omega arith))) (mod-lt b (one-le-pow k 2 (omega arith)))

  op-mod_lt : (k a b : ℕ) → op (a % 2 ^ k) (b % 2 ^ k) < 2 ^ k
  op-mod_lt k a b =
      op-lt k (a % 2 ^ k) (b % 2 ^ k) (mod-lt a (one-le-pow k 2 (omega arith)))
        (mod-lt b (one-le-pow k 2 (omega arith)))

  op-div : (k a b : ℕ) → op a b / 2 ^ k ≡ op (a / 2 ^ k) (b / 2 ^ k)
  op-div k a b = rw (op_split k a b) (div_of_fields (op (a / 2 ^ k) (b / 2 ^ k)) (op-mod_lt k a b))

  op-mod : (k a b : ℕ) → op a b % 2 ^ k ≡ op (a % 2 ^ k) (b % 2 ^ k)
  op-mod k a b = rw (op_split k a b) (mod_of_fields (op (a / 2 ^ k) (b / 2 ^ k)) (op-mod_lt k a b))

  op_bit : (k a b : ℕ) → op a b / 2 ^ k % 2 ≡ f (a / 2 ^ k % 2) (b / 2 ^ k % 2)
  op_bit k a b =
      rw (op-div k a b) (omega (arith, half (a / 2 ^ k) (b / 2 ^ k), digit (a / 2 ^ k) (b / 2 ^ k)))

pub bit_and-lt : (k a b : ℕ) → a < 2 ^ k → b < 2 ^ k → bit_and a b < 2 ^ k
bit_and-lt = op-lt bit_and min refl bit_and_half (λ a b. omega arith)

pub bit_or-lt : (k a b : ℕ) → a < 2 ^ k → b < 2 ^ k → bit_or a b < 2 ^ k
bit_or-lt = op-lt bit_or max refl bit_or_half (λ a b. omega arith)

pub bit_and_fields :
    (k a b c d : ℕ)
    → b < 2 ^ k
    → d < 2 ^ k
    → bit_and (a * 2 ^ k + b) (c * 2 ^ k + d) ≡ bit_and a c * 2 ^ k + bit_and b d
bit_and_fields = op_fields bit_and min refl bit_and_half (λ a b. omega arith)

pub bit_or_fields :
    (k a b c d : ℕ)
    → b < 2 ^ k
    → d < 2 ^ k
    → bit_or (a * 2 ^ k + b) (c * 2 ^ k + d) ≡ bit_or a c * 2 ^ k + bit_or b d
bit_or_fields = op_fields bit_or max refl bit_or_half (λ a b. omega arith)

pub zero-bit_or : (b : ℕ) → bit_or 0 b ≡ b
zero-bit_or b = simp bit_or-bitwise refl

pub zero-bit_and : (b : ℕ) → bit_and 0 b ≡ 0
zero-bit_and b = simp bit_and-bitwise refl

bit_or-zero_below : (k a : ℕ) → a ≤ k → bit_or a 0 ≡ a
bit_or-zero_below k zero h = refl
bit_or-zero_below zero (suc a) h = absurd (omega arith)
bit_or-zero_below (suc k) (suc a) h =
    omega (arith, bit_or_half (suc a) 0, bit_or-zero_below k (suc a / 2) (omega arith))

pub bit_or-zero : (a : ℕ) → bit_or a 0 ≡ a
bit_or-zero a = bit_or-zero_below a a (omega arith)

bit_and-zero_below : (k a : ℕ) → a ≤ k → bit_and a 0 ≡ 0
bit_and-zero_below k zero h = refl
bit_and-zero_below zero (suc a) h = absurd (omega arith)
bit_and-zero_below (suc k) (suc a) h =
    omega (arith, bit_and_half (suc a) 0, bit_and-zero_below k (suc a / 2) (omega arith))

pub bit_and-zero : (a : ℕ) → bit_and a 0 ≡ 0
bit_and-zero a = bit_and-zero_below a a (omega arith)

bit_and_below : (k r : ℕ) → r < 2 ^ k → bit_and r (2 ^ k - 1) ≡ r
bit_and_below zero r h = bit_and-zero r ∙ omega arith
bit_and_below (suc k) r h =
    let e : (2 ^ suc k - 1) / 2 ≡ 2 ^ k - 1 = omega (arith, pow-suc 2 k) in
    let o : (2 ^ suc k - 1) % 2 ≡ 1 = omega (arith, pow-suc 2 k, one-le-pow k 2) in
    rw (bit_and_half r (2 ^ suc k - 1), e, o, bit_and_below k (r / 2) (omega (arith, pow-suc 2 k)))
      (omega arith)

-- `&` with `k` ones is the remainder by `2 ^ k`.
pub bit_and_ones : (k a : ℕ) → bit_and a (2 ^ k - 1) ≡ a % 2 ^ k
bit_and_ones k a =
    let pos : 0 < 2 ^ k = one-le-pow k 2 (omega arith) in
    let small : a % 2 ^ k < 2 ^ k = mod-lt a pos in
    let parts : a / 2 ^ k * 2 ^ k + a % 2 ^ k ≡ a = div-add-mod' a (2 ^ k) in
    let high : bit_and (a / 2 ^ k) 0 ≡ 0 = bit_and-zero (a / 2 ^ k) in
    omega (
      arith,
      ap (λ (t : ℕ). bit_and t (0 * 2 ^ k + (2 ^ k - 1))) parts,
      ap (λ (t : ℕ). bit_and a t) (zero_mul_add (2 ^ k) (2 ^ k - 1)),
      ap (λ (t : ℕ). t * 2 ^ k) high,
      bit_and_fields k (a / 2 ^ k) (a % 2 ^ k) 0 (2 ^ k - 1) small (omega arith),
      bit_and_below k (a % 2 ^ k) small,
    )
  where
    zero_mul_add : (m n : ℕ) → 0 * m + n ≡ n
    zero_mul_add m n = omega arith

pub bit_or-div : (k a b : ℕ) → bit_or a b / 2 ^ k ≡ bit_or (a / 2 ^ k) (b / 2 ^ k)
bit_or-div = op-div bit_or max refl bit_or_half (λ a b. omega arith)

pub bit_or-mod : (k a b : ℕ) → bit_or a b % 2 ^ k ≡ bit_or (a % 2 ^ k) (b % 2 ^ k)
bit_or-mod = op-mod bit_or max refl bit_or_half (λ a b. omega arith)

pub bit_and-div : (k a b : ℕ) → bit_and a b / 2 ^ k ≡ bit_and (a / 2 ^ k) (b / 2 ^ k)
bit_and-div = op-div bit_and min refl bit_and_half (λ a b. omega arith)

pub bit_and-mod : (k a b : ℕ) → bit_and a b % 2 ^ k ≡ bit_and (a % 2 ^ k) (b % 2 ^ k)
bit_and-mod = op-mod bit_and min refl bit_and_half (λ a b. omega arith)

pub bit_or_bit : (k a b : ℕ) → bit_or a b / 2 ^ k % 2 ≡ max (a / 2 ^ k % 2) (b / 2 ^ k % 2)
bit_or_bit = op_bit bit_or max refl bit_or_half (λ a b. omega arith)

pub bit_and_bit : (k a b : ℕ) → bit_and a b / 2 ^ k % 2 ≡ min (a / 2 ^ k % 2) (b / 2 ^ k % 2)
bit_and_bit = op_bit bit_and min refl bit_and_half (λ a b. omega arith)
