-- ===== src/PageAllocator/Windows.antt =====
-- Searching a window of free entries, and taking entries.
use uefi_bootloader.Prelude.{
  ℕ, zero, suc, ◌+◌, ◌≤◌, ◌<◌, ◌≡◌, refl, ◌∙◌, ◌↔◌, ◌⊎◌, inl, inr, Bool, true, false, Option, none,
  some, List, [], ◌∷◌, arith, leb, leb→le, leb→lt, Bool-cases, length, get_or, set, take,
  length-set, get_or-set_self, get_or-set_ne, Outcome, ok,
}
use uefi_bootloader.PageAllocator.{windows, all_unused, first_unused, use_entries}

-- The entries `i` to `i + n - 1` exist and are free.
abbrev pub Free : List Bool → ℕ → ℕ → Type 0
Free xs i n = (i + n ≤ length xs) × ((k : ℕ) → i ≤ k → k < i + n → get_or xs k true ≡ false)

prepend :
    (n : ℕ) (xs : List Bool)
    → ((k : ℕ) → k < n → get_or xs k true ≡ false)
    → (k : ℕ) → k < suc n
    → get_or (false ∷ xs) k true ≡ false
prepend n xs f zero lt = refl
prepend n xs f (suc k) lt = f k (omega arith)

all_unused_iff :
    (n : ℕ) (xs : List Bool)
    → n ≤ length xs
    → (all_unused (take n xs) ≡ true) ↔ ((k : ℕ) → k < n → get_or xs k true ≡ false)
all_unused_iff zero xs h = (λ e k lt. absurd (omega arith), λ f. refl)
all_unused_iff (suc n) [] h = absurd (omega arith)
all_unused_iff (suc n) (true ∷ xs) h = (λ e. cc, λ f. cc (f 0 (omega arith)))
all_unused_iff (suc n) (false ∷ xs) h =
    let rest = all_unused_iff n xs (omega arith) in
    (λ e. prepend n xs (rest.0 e), λ f. rest.1 (λ k lt. f (suc k) (omega arith)))

-- `r` is the number of the first window of `n` free entries, counted from `idx`.
pub data Finds (idx n : ℕ) (xs : List Bool) : Option ℕ → Type 0 where
  found :
      (i at : ℕ)
      → at ≡ idx + i
      → Free xs i n
      → ((j : ℕ) → j < i → ¬ Free xs j n)
      → Finds idx n xs (some at)
  missed : ((j : ℕ) → ¬ Free xs j n) → Finds idx n xs none

Free-tail : (x : Bool) (xs : List Bool) (i n : ℕ) → Free xs i n ↔ Free (x ∷ xs) (suc i) n
Free-tail x xs i n = (
  λ f. (omega (arith, f.0), shifted f),
  λ f. (omega (arith, f.0), λ k p q. f.1 (suc k) (omega arith) (omega arith)),
)
  where
    shifted : Free xs i n → (k : ℕ) → suc i ≤ k → k < suc i + n → get_or (x ∷ xs) k true ≡ false
    shifted f zero p q = absurd (omega arith)
    shifted f (suc k) p q = f.1 k (omega arith) (omega arith)

-- A search of the tail, where no window starts at the head.
later :
    (idx n : ℕ) (x : Bool) (xs : List Bool)
    → ¬ Free (x ∷ xs) 0 n
    → {r : Option ℕ} → Finds (idx + 1) n xs r
    → Finds idx n (x ∷ xs) r
later idx n x xs no_head (found i at e f least) =
    found (suc i) at (omega (arith, e)) ((Free-tail x xs i n).0 f) below
  where
    below : (j : ℕ) → j < suc i → ¬ Free (x ∷ xs) j n
    below zero lt g = no_head g
    below (suc j) lt g = least j (omega arith) ((Free-tail x xs j n).1 g)
later idx n x xs no_head (missed none_free) = missed all
  where
    all : (j : ℕ) → ¬ Free (x ∷ xs) j n
    all zero g = no_head g
    all (suc j) g = none_free j ((Free-tail x xs j n).1 g)

pub first_unused-Finds :
    (idx n : ℕ) (xs : List Bool) → 0 < n → Finds idx n xs (first_unused idx (windows n xs))
unfolding first_unused windows
first_unused-Finds idx n [] h = missed (λ j f. omega (arith, f.0))
first_unused-Finds idx n (x ∷ xs) h = elim (Bool-cases (leb n (suc (length xs)))) [
  | inl e ↦
      let fits : n ≤ suc (length xs) = leb→le n (suc (length xs)) e in
      let here = all_unused_iff n (x ∷ xs) fits in
      elim (Bool-cases (all_unused (take n (x ∷ xs)))) [
        | inl all ↦
            rw (e, all)
              (found 0 idx (omega arith) (omega arith, λ k p lt. here.0 all k (omega arith))
                (λ j lt. absurd (omega arith)))
        | inr some_used ↦
            rw (e, some_used)
              (later idx n x xs (λ f. cc (here.1 λ k lt. f.1 k (omega arith) (omega arith)))
                (first_unused-Finds (idx + 1) n xs h))
      ]
  | inr e ↦
      let short : suc (length xs) < n = leb→lt n (suc (length xs)) e in
      rw e (missed λ j f. omega (arith, f.0))
]

-- `r` is a normal return with the entries `i` to `i + n - 1` set and the others as they were.
pub record Uses (xs : List Bool) (i n : ℕ) (r : Outcome (List Bool)) : Type 0 where
  pub out : List Bool
  pub returns : r ≡ ok out
  pub size : length out ≡ length xs
  pub inside : (k : ℕ) → i ≤ k → k < i + n → get_or out k true ≡ true
  pub outside : (k : ℕ) → (k < i) ⊎ (i + n ≤ k) → get_or out k true ≡ get_or xs k true

pub use_entries-Uses :
    (xs : List Bool) (i n : ℕ) → i + n ≤ length xs → Uses xs i n (use_entries xs i n)
unfolding use_entries
use_entries-Uses xs i zero h = record {
  out = xs;
  returns = refl;
  size = refl;
  inside = λ k p q. absurd (omega arith);
  outside = λ k p. refl;
}
use_entries-Uses xs i (suc n) h =
    let rest = use_entries-Uses (set xs i true) (i + 1) n (rw length-set (omega arith)) in
    record {
      out = rest.out;
      returns = ground arith ∙ rest.returns;
      size = rest.size ∙ length-set xs i true;
      inside =
          λ k p q. ground (arith, rest.inside k, rest.outside k, get_or-set_self xs i true true);
      outside = λ k p. ground (arith, rest.outside k, get_or-set_ne xs i k true true);
    }
