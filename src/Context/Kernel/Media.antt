-- ===== src/Context/Kernel/Media.antt =====
-- What `RegularFile` promises, and `set_position` and a read into a buffer with it.
use uefi_bootloader.Prelude.{
  ℕ, zero, suc, ◌+◌, ◌-◌, ◌^◌, ◌≤◌, ◌<◌, ◌≡◌, refl, ap, ◌∙◌, some, List, [], ◌∷◌, arith, length,
  get_or, take, drop, ok,
}
use uefi_bootloader.Modules.{overwrite}
use uefi_bootloader.Context.Kernel.{RegularFile, set_position, read_buffer}

-- A file has contents, which no call changes, and a position, from which it reads. The highest
-- position stands for the end of the file. A read from a position past the end of the file is an
-- error of the firmware, so nothing is promised of it.
pub record IsFile (media : RegularFile) : Type 0 where
  pub contents : media.State → List ℕ
  pub position : media.State → ℕ
  pub seek : media.State → ℕ → media.State
  pub seeks : (f : media.State) (p : ℕ) → p < 2 ^ 64 - 1 → media.set_position f p ≡ some (seek f p)
  pub position-seek : (f : media.State) (p : ℕ) → p < 2 ^ 64 - 1 → position (seek f p) ≡ p
  pub contents-seek : (f : media.State) (p : ℕ) → p < 2 ^ 64 - 1 → contents (seek f p) ≡ contents f
  pub reads :
      (f : media.State) (n : ℕ)
      → position f ≤ length (contents f)
      → (media.read f n).1 ≡ some (take n (drop (position f) (contents f)))
  pub contents-read : (f : media.State) (n : ℕ) → contents (media.read f n).0 ≡ contents f

-- The bytes of a file from a position on.
abbrev pub bytes_at : List ℕ → ℕ → ℕ → List ℕ
bytes_at contents p n = take n (drop p contents)

pub length-bytes_at :
    (contents : List ℕ) (p n : ℕ) → p + n ≤ length contents → length (bytes_at contents p n) ≡ n
length-bytes_at contents zero zero h = refl
length-bytes_at [] zero (suc n) h = absurd (omega (arith, h))
length-bytes_at (x ∷ xs) zero (suc n) h = ap suc (length-bytes_at xs zero n (omega (arith, h)))
length-bytes_at [] (suc p) n h = absurd (omega (arith, h))
length-bytes_at (x ∷ xs) (suc p) n h = length-bytes_at xs p n (omega (arith, h))

pub get_or-bytes_at :
    (contents : List ℕ) (p n i d : ℕ)
    → i < n
    → get_or (bytes_at contents p n) i d ≡ get_or contents (p + i) d
get_or-bytes_at contents zero zero i d h = absurd (omega (arith, h))
get_or-bytes_at [] zero (suc n) i d h = refl
get_or-bytes_at (x ∷ xs) zero (suc n) zero d h = refl
get_or-bytes_at (x ∷ xs) zero (suc n) (suc i) d h =
    let next : 0 + suc i ≡ suc (0 + i) = omega arith in
    rw next (get_or-bytes_at xs zero n i d (omega (arith, h)))
get_or-bytes_at [] (suc p) zero i d h = absurd (omega (arith, h))
get_or-bytes_at [] (suc p) (suc n) i d h = refl
get_or-bytes_at (x ∷ xs) (suc p) n i d h =
    let next : suc p + i ≡ suc (p + i) = omega arith in rw next (get_or-bytes_at xs p n i d h)

take_twice : (n : ℕ) (xs : List ℕ) → take n (take n xs) ≡ take n xs
take_twice zero xs = refl
take_twice (suc n) [] = refl
take_twice (suc n) (x ∷ xs) = ap (λ l. x ∷ l) (take_twice n xs)

pub take-bytes_at :
    (contents : List ℕ) (p n : ℕ) → take n (bytes_at contents p n) ≡ bytes_at contents p n
take-bytes_at contents p n = take_twice n (drop p contents)

-- A buffer is overwritten by as many bytes.
pub overwrite_whole : (xs ys : List ℕ) → length xs ≡ length ys → overwrite xs 0 ys ≡ ys
unfolding overwrite
overwrite_whole [] [] h = refl
overwrite_whole [] (y ∷ ys) h = absurd (omega (arith, h))
overwrite_whole (x ∷ xs) [] h = absurd (omega (arith, h))
overwrite_whole (x ∷ xs) (y ∷ ys) h = ap (λ l. y ∷ l) (overwrite_whole xs ys (omega (arith, h)))

module _ (media : RegularFile) (is_file : IsFile media) where
  open is_file use {contents, position, seek}

  pub set_position-eq :
      (p : ℕ) (f : media.State) → p < 2 ^ 64 - 1 → set_position media p f ≡ ok (seek f p)
  unfolding set_position
  set_position-eq p f h = rw (is_file.seeks f p h) refl

  -- A read from a position in the file into a buffer.
  pub read_buffer_at :
      (buffer : List ℕ) (f : media.State) (p : ℕ)
      → p < 2 ^ 64 - 1
      → p ≤ length (contents f)
      → (f' : media.State) × (read_buffer media buffer (seek f p)
          ≡ ok (f', overwrite buffer 0 (bytes_at (contents f) p (length buffer))))
        × (contents f' ≡ contents f)
  unfolding read_buffer
  read_buffer_at buffer f p h inside =
      let g = seek f p in
      let e =
        is_file.reads g (length buffer)
          (rw (is_file.position-seek f p h, is_file.contents-seek f p h) inside) in
      (
        (media.read g (length buffer)).0,
        rw (e, is_file.position-seek f p h, is_file.contents-seek f p h) refl,
        is_file.contents-read g (length buffer) ∙ is_file.contents-seek f p h,
      )
