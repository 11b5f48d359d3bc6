-- ===== src/Modules/Names.antt =====
-- The names of uefi-bootloader/src/modules.rs: a file's name as bytes of UTF-8.
use uefi_bootloader.Prelude.{
  ℕ, zero, suc, ◌+◌, ◌-◌, ◌*◌, ◌≤◌, ◌≡◌, refl, sym, ap, ◌∙◌, true, List, [], ◌∷◌, ◌++◌, arith, leb,
  length, replicate, length-append, length-replicate, ok,
}
use mathlib.Core.List.{append_assoc}
use uefi_bootloader.Modules.{Firmware, overwrite, write_name}

-- The bytes of a name's characters, one after the other.
unfoldable pub encoded : Firmware → List ℕ → List ℕ
encoded fw [] = []
encoded fw (c ∷ cs) = fw.encode_utf8 c ++ encoded fw cs

-- The 64 bytes of a module's name.
abbrev pub padded_name : Firmware → List ℕ → List ℕ
padded_name fw cs = encoded fw cs ++ replicate (64 - length (encoded fw cs)) 0

pub length-encoded : (fw : Firmware) (cs : List ℕ) → length (encoded fw cs) ≤ 4 * length cs
unfolding encoded
length-encoded fw [] = omega arith
length-encoded fw (c ∷ cs) = omega (
  arith,
  length-encoded fw cs,
  fw.encode_utf8-size c,
  length-append (fw.encode_utf8 c) (encoded fw cs),
)

-- Bytes written over the start of zeros.
pub overwrite_zeros :
    (n : ℕ) (ys : List ℕ)
    → length ys ≤ n
    → overwrite (replicate n 0) 0 ys ≡ ys ++ replicate (n - length ys) 0
unfolding overwrite
overwrite_zeros zero [] h = refl
overwrite_zeros zero (y ∷ ys) h = absurd (omega (arith, h))
overwrite_zeros (suc n) [] h = let all : suc n - 0 ≡ suc n = omega arith in rw all refl
overwrite_zeros (suc n) (y ∷ ys) h =
    let less : suc n - suc (length ys) ≡ n - length ys = omega arith in
    rw less (ap (λ l. y ∷ l) (overwrite_zeros n ys (omega (arith, h))))

overwrite_after :
    (xs zs ys : List ℕ) → overwrite (xs ++ zs) (length xs) ys ≡ xs ++ overwrite zs 0 ys
unfolding overwrite
overwrite_after [] zs ys = refl
overwrite_after (x ∷ xs) zs ys = ap (λ l. x ∷ l) (overwrite_after xs zs ys)

module _ (fw : Firmware) where
  pub write_name-eq :
      (cs before : List ℕ) (n : ℕ)
      → 4 * length cs ≤ n
      → write_name fw cs (before ++ replicate n 0) (length before)
        ≡ ok (before ++ (encoded fw cs ++ replicate (n - length (encoded fw cs)) 0))
  unfolding write_name encoded
  write_name-eq [] before n h = let all : n - 0 ≡ n = omega arith in rw all refl
  write_name-eq (c ∷ cs) before n h =
      let s = fw.encode_utf8 c in
      let size = fw.encode_utf8-size c in
      let many = length-append before (replicate n 0) in
      let zeros = length-replicate {A = ℕ} n 0 in
      let room : leb (length before + 4) (length (before ++ replicate n 0)) ≡ true =
        ground (arith, many, zeros, h) in
      let written : overwrite (before ++ replicate n 0) (length before) s
          ≡ (before ++ s) ++ replicate (n - length s) 0 =
        overwrite_after before (replicate n 0) s
        ∙ ap (λ l. before ++ l) (overwrite_zeros n s (omega (arith, size, h)))
        ∙ sym (append_assoc before s (replicate (n - length s) 0)) in
      let at : length before + length s ≡ length (before ++ s) = sym (length-append before s) in
      let left : n - length s - length (encoded fw cs) ≡ n - length (s ++ encoded fw cs) =
        omega (arith, length-append s (encoded fw cs)) in
      rw (room, written, at)
        (write_name-eq cs (before ++ s) (n - length s) (omega (arith, size, h))
          ∙ ap ok (
              append_assoc before s _
              ∙ ap (λ l. before ++ l) (sym (append_assoc s (encoded fw cs) _) ∙ rw left refl)))

  -- A name of at most 16 characters, written into 64 zeros.
  pub write_name-padded_name :
      (cs : List ℕ) → length cs ≤ 16 → write_name fw cs (replicate 64 0) 0 ≡ ok (padded_name fw cs)
  write_name-padded_name cs h = write_name-eq cs [] 64 (omega (arith, h))
