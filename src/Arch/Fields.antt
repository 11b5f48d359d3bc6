-- ===== src/Arch/Fields.antt =====
-- Setting and clearing a run of bits with a mask.
use uefi_bootloader.Prelude.{
  ℕ, zero, suc, ◌+◌, ◌-◌, ◌*◌, ◌/◌, ◌%◌, ◌^◌, ◌<◌, bit_and, bit_or, ◌≡◌, ap, ◌∙◌, Bool, arith,
  if◌then◌else◌, bit_not, bit_or_half, bit_and_fields, bit_or_fields, zero-bit_or, bit_or-zero,
  bit_and_ones,
}
use native.Mathlib.Nat.{pow-suc, one-le-pow, mod-lt, div-add-mod'}
use mathlib.Core.Path.{subst}

-- `if enable { self.0 | BITS } else { self.0 & !(BITS) }`
abbrev pub assign : ℕ → ℕ → Bool → ℕ
assign bits flags enable = if enable then bit_or flags bits else bit_and flags (bit_not bits)

-- `r` is `f` with the bits `b` to `b + w - 1` replaced by `v`.
abbrev pub SetsField : ℕ → ℕ → ℕ → ℕ → ℕ → Type 0
SetsField b w v f r = r ≡ f / 2 ^ (b + w) * 2 ^ (b + w) + v * 2 ^ b + f % 2 ^ b

-- All the bits of the field, or none.
abbrev pub filled : ℕ → Bool → ℕ
filled w e = if e then 2 ^ w - 1 else 0

bit_or_below : (k r : ℕ) → r < 2 ^ k → bit_or r (2 ^ k - 1) ≡ 2 ^ k - 1
bit_or_below zero r h = let e : r ≡ 0 = omega arith in rw e (zero-bit_or 0)
bit_or_below (suc k) r h =
    let e : (2 ^ suc k - 1) / 2 ≡ 2 ^ k - 1 = omega (arith, pow-suc 2 k) in
    let o : (2 ^ suc k - 1) % 2 ≡ 1 = omega (arith, pow-suc 2 k, one-le-pow k 2) in
    rw (bit_or_half r (2 ^ suc k - 1), e, o, bit_or_below k (r / 2) (omega (arith, pow-suc 2 k)))
      (omega (arith, pow-suc 2 k, one-le-pow k 2))

split_at : (k f : ℕ) → (f / 2 ^ k * 2 ^ k + f % 2 ^ k ≡ f) × (f % 2 ^ k < 2 ^ k)
split_at k f = (div-add-mod' f (2 ^ k), mod-lt f (one-le-pow k 2 (omega arith)))

-- A mask whose lowest `k` bits are `n` and whose others are `m`.
pub bit_or-at :
    (k f m n : ℕ)
    → n < 2 ^ k
    → bit_or f (m * 2 ^ k + n) ≡ bit_or (f / 2 ^ k) m * 2 ^ k + bit_or (f % 2 ^ k) n
bit_or-at k f m n h =
    subst
      (λ (t : ℕ). bit_or t (m * 2 ^ k + n) ≡ bit_or (f / 2 ^ k) m * 2 ^ k + bit_or (f % 2 ^ k) n)
      (split_at k f).0 (bit_or_fields k (f / 2 ^ k) (f % 2 ^ k) m n (split_at k f).1 h)

pub bit_and-at :
    (k f m n : ℕ)
    → n < 2 ^ k
    → bit_and f (m * 2 ^ k + n) ≡ bit_and (f / 2 ^ k) m * 2 ^ k + bit_and (f % 2 ^ k) n
bit_and-at k f m n h =
    subst
      (λ (t : ℕ). bit_and t (m * 2 ^ k + n) ≡ bit_and (f / 2 ^ k) m * 2 ^ k + bit_and (f % 2 ^ k) n)
      (split_at k f).0 (bit_and_fields k (f / 2 ^ k) (f % 2 ^ k) m n (split_at k f).1 h)

pub on :
    (b w f : ℕ)
    → bit_or f ((2 ^ w - 1) * 2 ^ b) ≡ (f / 2 ^ b / 2 ^ w * 2 ^ w + (2 ^ w - 1)) * 2 ^ b + f % 2 ^ b
on b w f =
    let pos : 0 < 2 ^ b = one-le-pow b 2 (omega arith) in
    let posw : 0 < 2 ^ w = one-le-pow w 2 (omega arith) in
    let q = f / 2 ^ b in
    let outer : bit_or f ((2 ^ w - 1) * 2 ^ b + 0)
        ≡ bit_or q (2 ^ w - 1) * 2 ^ b + bit_or (f % 2 ^ b) 0 =
      bit_or-at b f (2 ^ w - 1) 0 pos in
    let inner : bit_or q (0 * 2 ^ w + (2 ^ w - 1))
        ≡ bit_or (q / 2 ^ w) 0 * 2 ^ w + bit_or (q % 2 ^ w) (2 ^ w - 1) =
      bit_or-at w q 0 (2 ^ w - 1) (omega arith) in
    let no_low : (2 ^ w - 1) * 2 ^ b ≡ (2 ^ w - 1) * 2 ^ b + 0 = omega arith in
    let no_high : 2 ^ w - 1 ≡ 0 * 2 ^ w + (2 ^ w - 1) = omega arith in
    let field : bit_or q (2 ^ w - 1) ≡ q / 2 ^ w * 2 ^ w + (2 ^ w - 1) =
      ap (λ (t : ℕ). bit_or q t) no_high
      ∙ inner
      ∙ rw (bit_or-zero (q / 2 ^ w), bit_or_below w (q % 2 ^ w) (split_at w q).1) in
    ap (λ (t : ℕ). bit_or f t) no_low ∙ outer ∙ rw (bit_or-zero (f % 2 ^ b), field)

pub off :
    (k l b f : ℕ)
    → 2 ^ b - 1 < 2 ^ k
    → bit_and f ((2 ^ l - 1) * 2 ^ k + (2 ^ b - 1)) ≡ f / 2 ^ k % 2 ^ l * 2 ^ k + f % 2 ^ k % 2 ^ b
off k l b f h =
    bit_and-at k f (2 ^ l - 1) (2 ^ b - 1) h
    ∙ rw (bit_and_ones l (f / 2 ^ k), bit_and_ones b (f % 2 ^ k))
