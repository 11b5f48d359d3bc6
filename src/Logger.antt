-- ===== src/Logger.antt =====
-- uefi-bootloader/src/logger.rs: text on the frame buffer. The frame buffer is the list of its bytes.
-- `Font` stands for what the logger calls of the crate `noto_sans_mono_bitmap`; a character is its
-- number.
pub mod Pixels
pub mod Room
pub mod Safety
mod Tests
use uefi_bootloader.Prelude.{
  ℕ, ◌+◌, ◌/◌, ◌≡◌, Option, none, some, List, [], ◌∷◌, ◌++◌, ltb, leb, ◌==◌, if◌then◌else◌, length,
  replicate, take, drop, All, ◌+w◌, ◌*w◌, Outcome, ◌>>=◌, ◌>>◌, expect, guard, ok, panic,
}
use uefi_bootloader.Api.{PixelFormat, rgb, bgr, FrameBufferInfo}

-- `raster()` and `width()` of a rendered character
pub record RasterizedChar : Type 0 where
  pub raster : List (List ℕ)
  pub width : ℕ

-- `get_raster` at the weight and size in use, and `get_raster_width` there. All characters of the
-- font have that width and the height 16, and the font has the replacement character.
pub record Font : Type 0 where
  pub get_raster : ℕ → Option RasterizedChar
  pub raster_width : ℕ
  pub get_raster-size :
      (c : ℕ) (r : RasterizedChar)
      → get_raster c ≡ some r
      → (length r.raster ≡ 16)
        × (r.width ≡ raster_width)
        × All (λ row. length row ≡ raster_width) r.raster
  pub get_raster_backup : (r : RasterizedChar) × (get_raster 0xFFFD ≡ some r)

abbrev pub line_spacing : ℕ
line_spacing = 2

abbrev pub letter_spacing : ℕ
letter_spacing = 0

abbrev pub border_padding : ℕ
border_padding = 1

-- `CHAR_RASTER_HEIGHT.val()`
abbrev pub char_raster_height : ℕ
char_raster_height = 16

-- `BACKUP_CHAR`
abbrev pub backup_char : ℕ
backup_char = 0xFFFD

-- `get(c).unwrap_or_else(…)`
abbrev pub or_backup : Font → Option RasterizedChar → Outcome RasterizedChar
or_backup font (some r) = ok r
or_backup font none = expect (font.get_raster backup_char)

unfoldable pub get_char_raster : Font → ℕ → Outcome RasterizedChar
get_char_raster font c = or_backup font (font.get_raster c)

pub record Logger : Type 0 where
  pub framebuffer : List ℕ
  pub info : FrameBufferInfo
  pub x_pos : ℕ
  pub y_pos : ℕ

unfoldable pub carriage_return : Logger → Logger
carriage_return s = record s { x_pos = border_padding }

unfoldable pub newline : Logger → Logger
unfolding carriage_return
newline s = carriage_return (record s { y_pos = s.y_pos +w (char_raster_height + line_spacing) })

unfoldable pub clear : Logger → Logger
clear s = record s {
  x_pos = border_padding;
  y_pos = border_padding;
  framebuffer = replicate (length s.framebuffer) 0;
}

unfoldable pub new : List ℕ → FrameBufferInfo → Logger
unfolding clear
new framebuffer info =
    clear (record { framebuffer = framebuffer; info = info; x_pos = 0; y_pos = 0 })

unfoldable pub color_of : PixelFormat → ℕ → List ℕ
color_of rgb intensity = intensity ∷ intensity ∷ intensity / 2 ∷ 0 ∷ []
color_of bgr intensity = intensity / 2 ∷ intensity ∷ intensity ∷ 0 ∷ []

-- `xs[at..at + ys.len()].copy_from_slice(ys)`
unfoldable pub copy_from_slice : List ℕ → ℕ → List ℕ → Outcome (List ℕ)
copy_from_slice xs at ys =
    if leb (at + length ys) (length xs)
    then ok (take at xs ++ (ys ++ drop (at + length ys) xs))
    else panic

-- The volatile read of the first byte panics where there is none.
unfoldable pub write_pixel : Logger → ℕ → ℕ → ℕ → Outcome Logger
write_pixel s x y intensity = do
  let pixel_offset = (y *w s.info.stride) +w x
  let color = color_of s.info.pixel_format intensity
  let bytes_per_pixel = s.info.bytes_per_pixel
  let byte_offset = pixel_offset *w bytes_per_pixel
  guard (leb bytes_per_pixel (length color))
  framebuffer ← copy_from_slice s.framebuffer byte_offset (take bytes_per_pixel color)
  guard (ltb byte_offset (length framebuffer))
  ok (record s { framebuffer = framebuffer })

-- The inner loop, from column `x` of the row on.
unfoldable pub write_row : Logger → ℕ → ℕ → List ℕ → Outcome Logger
write_row s x y [] = ok s
write_row s x y (byte ∷ bytes) =
    write_pixel s (s.x_pos +w x) (s.y_pos +w y) byte >>= λ s'. write_row s' (x + 1) y bytes

-- The outer loop, from row `y` on.
unfoldable pub write_rows : Logger → ℕ → List (List ℕ) → Outcome Logger
write_rows s y [] = ok s
write_rows s y (row ∷ rows) = write_row s 0 y row >>= λ s'. write_rows s' (y + 1) rows

unfoldable pub write_rendered_char : Logger → RasterizedChar → Outcome Logger
write_rendered_char s rendered_char = write_rows s 0 rendered_char.raster >>= λ s'.
    ok (record s' { x_pos = s'.x_pos +w (rendered_char.width + letter_spacing) })

module _ (font : Font) where
  -- The line break and the clearing before a character is drawn.
  unfoldable pub make_room : Logger → Logger
  make_room s =
      let s1 : Logger = if leb s.info.width (s.x_pos +w font.raster_width) then newline s else s in
      if leb s1.info.height (s1.y_pos +w (char_raster_height + border_padding))
      then clear s1
      else s1

  unfoldable pub write_char : Logger → ℕ → Outcome Logger
  write_char s c =
      if c == 10
      then ok (newline s)
      else if c == 13
      then ok (carriage_return s)
      else get_char_raster font c >>= λ r. write_rendered_char (make_room s) r

  unfoldable pub write_str : Logger → List ℕ → Outcome Logger
  write_str s [] = ok s
  write_str s (c ∷ cs) = write_char s c >>= λ s'. write_str s' cs
