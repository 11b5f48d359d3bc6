-- ===== src/Modules/Buffer.antt =====
-- Buffers that are overwritten in part.
use uefi_bootloader.Prelude.{
  ℕ, zero, suc, ◌+◌, ◌/◌, ◌^◌, ◌≤◌, ◌<◌, ◌≡◌, refl, ap, List, [], ◌∷◌, arith, length, get_or,
}
use uefi_bootloader.Modules.{overwrite, calculate_pages}

pub length-overwrite :
    (xs : List ℕ) (at : ℕ) (ys : List ℕ) → length (overwrite xs at ys) ≡ length xs
unfolding overwrite
length-overwrite [] at ys = refl
length-overwrite (x ∷ xs) zero [] = refl
length-overwrite (x ∷ xs) zero (y ∷ ys) = ap suc (length-overwrite xs zero ys)
length-overwrite (x ∷ xs) (suc at) ys = ap suc (length-overwrite xs at ys)

pub overwrite_inside :
    (xs : List ℕ) (at : ℕ) (ys : List ℕ) (i d : ℕ)
    → i < length ys
    → at + length ys ≤ length xs
    → get_or (overwrite xs at ys) (at + i) d ≡ get_or ys i d
unfolding overwrite
overwrite_inside [] at [] i d h k = absurd (omega arith)
overwrite_inside [] at (y ∷ ys) i d h k = absurd (omega arith)
overwrite_inside (x ∷ xs) zero [] i d h k = absurd (omega arith)
overwrite_inside (x ∷ xs) zero (y ∷ ys) zero d h k = refl
overwrite_inside (x ∷ xs) zero (y ∷ ys) (suc i) d h k =
    let next : 0 + suc i ≡ suc (0 + i) = omega arith in
    rw next (overwrite_inside xs zero ys i d (omega arith) (omega arith))
overwrite_inside (x ∷ xs) (suc at) ys i d h k =
    let next : suc at + i ≡ suc (at + i) = omega arith in
    rw next (overwrite_inside xs at ys i d h (omega arith))

pub overwrite_before :
    (xs : List ℕ) (at : ℕ) (ys : List ℕ) (i d : ℕ)
    → i < at
    → get_or (overwrite xs at ys) i d ≡ get_or xs i d
unfolding overwrite
overwrite_before [] at ys i d h = refl
overwrite_before (x ∷ xs) zero ys i d h = absurd (omega arith)
overwrite_before (x ∷ xs) (suc at) ys zero d h = refl
overwrite_before (x ∷ xs) (suc at) ys (suc i) d h = overwrite_before xs at ys i d (omega arith)

pub calculate_pages-eq :
    (bytes : ℕ) → 0 < bytes → bytes < 2 ^ 63 → calculate_pages bytes ≡ (bytes + 4095) / 4096
unfolding calculate_pages
calculate_pages-eq bytes h k = omega arith
