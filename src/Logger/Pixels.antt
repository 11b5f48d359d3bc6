-- ===== src/Logger/Pixels.antt =====
-- Pixels, rows and whole characters land in the frame buffer.
use uefi_bootloader.Prelude.{
  ℕ, zero, suc, ◌+◌, ◌-◌, ◌*◌, ◌^◌, ◌≤◌, ◌<◌, ◌≡◌, refl, ap, ◌∙◌, true, List, [], ◌∷◌, ◌++◌, arith,
  ltb, length, replicate, take, drop, length-append, length-replicate, All, ◌+w◌, ◌*w◌, Outcome,
  ◌>>=◌, ok,
}
use uefi_bootloader.Api.{PixelFormat, rgb, bgr, FrameBufferInfo}
use uefi_bootloader.Logger.{
  Font, Logger, color_of, copy_from_slice, write_pixel, write_row, write_rows,
}

mul_mono : (a b c : ℕ) → a ≤ b → a * c ≤ b * c
mul_mono zero b c h = omega arith
mul_mono (suc a) zero c h = absurd (omega arith)
mul_mono (suc a) (suc b) c h = omega (arith, mul_mono a b c (omega arith))

-- A frame buffer of 4 bytes per pixel that holds `height` rows of `stride` pixels, and at least one
-- character.
pub record Consistent (font : Font) (info : FrameBufferInfo) (size : ℕ) : Type 0 where
  pub bytes : info.bytes_per_pixel ≡ 4
  pub columns : font.raster_width + 1 ≤ info.width
  pub rows : 17 ≤ info.height
  pub stride : info.width ≤ info.stride
  pub fits : info.height * info.stride * 4 ≤ size
  pub small : size < 2 ^ 62

-- `r` is `s` with another frame buffer of the same size.
pub record Draws (s : Logger) (r : Outcome Logger) : Type 0 where
  pub framebuffer : List ℕ
  pub returns : r ≡ ok (record s { framebuffer = framebuffer })
  pub size : length framebuffer ≡ length s.framebuffer

length-take : (n : ℕ) (xs : List ℕ) → n ≤ length xs → length (take n xs) ≡ n
length-take zero xs h = refl
length-take (suc n) [] h = absurd (omega arith)
length-take (suc n) (x ∷ xs) h = ap suc (length-take n xs (omega arith))

length-drop : (n : ℕ) (xs : List ℕ) → length (drop n xs) ≡ length xs - n
length-drop zero xs = omega arith
length-drop (suc n) [] = omega arith
length-drop (suc n) (x ∷ xs) = omega (arith, length-drop n xs)

length-color_of : (f : PixelFormat) (i : ℕ) → length (color_of f i) ≡ 4
unfolding color_of
length-color_of rgb i = refl
length-color_of bgr i = refl

take_all : (n : ℕ) (xs : List ℕ) → length xs ≡ n → take n xs ≡ xs
take_all zero [] h = refl
take_all zero (x ∷ xs) h = absurd (omega arith)
take_all (suc n) [] h = refl
take_all (suc n) (x ∷ xs) h = ap (λ l. x ∷ l) (take_all n xs (omega arith))

copied :
    (xs ys : List ℕ) (at n : ℕ)
    → length ys ≡ n
    → at + n ≤ length xs
    → length (take at xs ++ (ys ++ drop (at + n) xs)) ≡ length xs
copied xs ys at n e h = omega (
  arith,
  e,
  length-append (take at xs) (ys ++ drop (at + n) xs),
  length-append ys (drop (at + n) xs),
  length-take at xs (omega arith),
  length-drop (at + n) xs,
)

copy_from_slice-eq :
    (xs ys : List ℕ) (at n : ℕ)
    → length ys ≡ n
    → at + n ≤ length xs
    → copy_from_slice xs at ys ≡ ok (take at xs ++ (ys ++ drop (at + n) xs))
unfolding copy_from_slice
copy_from_slice-eq xs ys at n e h = rw e (ground arith)

pub length-blank : (xs : List ℕ) → length (replicate {A = ℕ} (length xs) 0) ≡ length xs
length-blank xs = length-replicate {A = ℕ} (length xs) 0

module _ (font : Font) where
  at_pixel :
      (info : FrameBufferInfo) (size x y : ℕ)
      → Consistent font info size
      → x < info.stride
      → y < info.height
      → (((y *w info.stride) +w x) *w 4 ≡ (y * info.stride + x) * 4)
        × ((y * info.stride + x) * 4 + 4 ≤ size)
  at_pixel info size x y ok_info hx hy =
      let row = mul_mono (y + 1) info.height info.stride (omega arith) in
      (omega (arith, row, ok_info.fits, ok_info.small), omega (arith, row, ok_info.fits))

  write_pixel-Draws :
      (s : Logger) (x y intensity : ℕ)
      → Consistent font s.info (length s.framebuffer)
      → x < s.info.stride
      → y < s.info.height
      → Draws s (write_pixel s x y intensity)
  unfolding write_pixel
  write_pixel-Draws s x y intensity info hx hy =
      let p = at_pixel s.info (length s.framebuffer) x y info hx hy in
      let c = color_of s.info.pixel_format intensity in
      let four : length c ≡ 4 = length-color_of s.info.pixel_format intensity in
      let at = (y * s.info.stride + x) * 4 in
      let out = take at s.framebuffer ++ (c ++ drop (at + 4) s.framebuffer) in
      let size : length out ≡ length s.framebuffer = copied s.framebuffer c at 4 four p.1 in
      let inside : ltb at (length out) ≡ true = ground (arith, size, p.1) in
      record {
        framebuffer = out;
        returns = rw (
          info.bytes,
          four,
          p.0,
          take_all 4 c four,
          copy_from_slice-eq s.framebuffer c at 4 four p.1,
          inside,
        );
        size = size;
      }

  pub below :
      (info : FrameBufferInfo) (size : ℕ)
      → Consistent font info size
      → (info.stride < 2 ^ 62) × (info.height < 2 ^ 62)
  below info size c = (
    omega (
      arith,
      c.fits,
      c.small,
      c.rows,
      mul_mono 1 info.height info.stride (omega (arith, c.rows)),
    ),
    omega (
      arith,
      c.fits,
      c.small,
      mul_mono 1 info.stride info.height (omega (arith, c.columns, c.stride)),
    ),
  )

  Draws-then :
      (s : Logger) {r : Outcome Logger} (f : Logger → Outcome Logger)
      → Draws s r
      → ((out : List ℕ)
          → length out ≡ length s.framebuffer
          → Draws (record s { framebuffer = out }) (f (record s { framebuffer = out })))
      → Draws s (r >>= f)
  Draws-then s f first rest =
      let second = rest first.framebuffer first.size in
      record {
        framebuffer = second.framebuffer;
        returns = rw (first.returns, second.returns);
        size = second.size ∙ first.size;
      }

  write_row-Draws :
      (s : Logger) (x y : ℕ) (bytes : List ℕ)
      → Consistent font s.info (length s.framebuffer)
      → s.x_pos + x + length bytes ≤ s.info.width
      → s.y_pos + y < s.info.height
      → Draws s (write_row s x y bytes)
  unfolding write_row
  write_row-Draws s x y [] info hx hy = record {
    framebuffer = s.framebuffer;
    returns = refl;
    size = refl;
  }
  write_row-Draws s x y (byte ∷ bytes) info hx hy =
      let b = below s.info (length s.framebuffer) info in
      let x_at : s.x_pos +w x ≡ s.x_pos + x = omega (arith, b.0, info.stride) in
      let y_at : s.y_pos +w y ≡ s.y_pos + y = omega (arith, b.1) in
      Draws-then s (λ s'. write_row s' (x + 1) y bytes)
        (rw (x_at, y_at)
          (write_pixel-Draws s (s.x_pos + x) (s.y_pos + y) byte info (omega (arith, info.stride))
            hy))
        (λ out e.
          write_row-Draws (record s { framebuffer = out }) (x + 1) y bytes (rw e info) (omega arith)
            hy)

  pub write_rows-Draws :
      (s : Logger) (y : ℕ) (rows : List (List ℕ))
      → Consistent font s.info (length s.framebuffer)
      → s.x_pos + font.raster_width ≤ s.info.width
      → All (λ row. length row ≡ font.raster_width) rows
      → s.y_pos + y + length rows ≤ s.info.height
      → Draws s (write_rows s y rows)
  unfolding write_rows
  write_rows-Draws s y [] info hx widths hy = record {
    framebuffer = s.framebuffer;
    returns = refl;
    size = refl;
  }
  write_rows-Draws s y (row ∷ rows) info hx widths hy =
      Draws-then s (λ s'. write_rows s' (y + 1) rows)
        (write_row-Draws s 0 y row info (omega (arith, widths.0)) (omega arith))
        (λ out e.
          write_rows-Draws (record s { framebuffer = out }) (y + 1) rows (rw e info) hx widths.1
            (omega arith))
