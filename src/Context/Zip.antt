-- ===== src/Context/Zip.antt =====
-- Lists of pages with their frames.
use uefi_bootloader.Prelude.{
  ℕ, zero, suc, ◌+◌, ◌≤◌, ◌<◌, ◌≡◌, refl, ap, ◌∙◌, none, some, List, [], ◌∷◌, arith, ltb,
  if◌then◌else◌, length, get_elem?, All, range,
}
use uefi_bootloader.Memory.Chunk.{Chunk}
use uefi_bootloader.Context.{zip}

pub zipped_InReach :
    (P : Chunk → Type 0) (b n : ℕ) (fs : List Chunk)
    → ((i : ℕ) → b ≤ i → i < b + n → P i)
    → All (λ p. P p.0) (zip (range b n) fs)
zipped_InReach P b zero fs h = tt
zipped_InReach P b (suc n) [] h = tt
zipped_InReach P b (suc n) (f ∷ fs) h = (
  h b (omega arith) (omega arith),
  zipped_InReach P (b + 1) n fs (λ i lo hi. h i (omega (arith, lo)) (omega (arith, hi))),
)

pub length-zip-range :
    (b n : ℕ) (fs : List Chunk) → length fs ≤ n → length (zip (range b n) fs) ≡ length fs
length-zip-range b zero [] h = refl
length-zip-range b (suc n) [] h = refl
length-zip-range b zero (f ∷ fs) h = absurd (omega (arith, h))
length-zip-range b (suc n) (f ∷ fs) h = ap suc (length-zip-range (b + 1) n fs (omega (arith, h)))

-- The frame with the same place among the frames.
pub get_elem?-range :
    (b n i : ℕ) → get_elem? (range b n) i ≡ (if ltb i n then some (b + i) else none)
get_elem?-range b zero i = ground arith
get_elem?-range b (suc n) zero = ground arith
get_elem?-range b (suc n) (suc i) = get_elem?-range (b + 1) n i ∙ ground arith

pub get_elem?-some :
    (fs : List Chunk) (i : ℕ) → i < length fs → (f : Chunk) × (get_elem? fs i ≡ some f)
get_elem?-some [] i h = absurd (omega (arith, h))
get_elem?-some (f ∷ fs) zero h = (f, refl)
get_elem?-some (f ∷ fs) (suc i) h = get_elem?-some fs i (omega (arith, h))

pub get_elem?-past : (fs : List Chunk) (i : ℕ) → length fs ≤ i → get_elem? fs i ≡ none
get_elem?-past [] i h = refl
get_elem?-past (f ∷ fs) zero h = absurd (omega (arith, h))
get_elem?-past (f ∷ fs) (suc i) h = get_elem?-past fs i (omega (arith, h))
