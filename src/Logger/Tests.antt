-- ===== src/Logger/Tests.antt =====
-- A frame buffer of 20 rows of 4 pixels, and a font of 16 rows of one pixel.
use uefi_bootloader.Prelude.{
  ℕ, ◌^◌, ◌≡◌, refl, sym, some, List, [], ◌∷◌, arith, length, get_or, replicate, length-replicate,
  All,
}
use uefi_bootloader.Api.{bgr, FrameBufferInfo}
use uefi_bootloader.Logger.{RasterizedChar, Font, Logger, new, write_str}
use uefi_bootloader.Logger.Safety.{write_str-Logs, new-Ready}
use uefi_bootloader.Logger.Room.{Ready, Logs}
use uefi_bootloader.Logger.Pixels.{Consistent}

abbrev filled : List (List ℕ)
filled = replicate 16 (200 ∷ [])

abbrev box : RasterizedChar
box = record { raster = filled; width = 1 }

box_widths : All (λ row. length row ≡ 1) filled
box_widths = (
  refl,
  (
    refl,
    (
      refl,
      (
        refl,
        (
          refl,
          (
            refl,
            (refl, (refl, (refl, (refl, (refl, (refl, (refl, (refl, (refl, (refl, tt)))))))))),
          ),
        ),
      ),
    ),
  ),
)

every :
    (c : ℕ) (r : RasterizedChar)
    → some box ≡ some r
    → (length r.raster ≡ 16) × (r.width ≡ 1) × All (λ row. length row ≡ 1) r.raster
every c r e = let f : box ≡ r = cc e in rw (sym f) (refl, refl, box_widths)

abbrev font : Font
font = record {
  get_raster = λ c. some box;
  raster_width = 1;
  get_raster-size = every;
  get_raster_backup = (box, refl);
}

abbrev info : FrameBufferInfo
info = record {
  size = 320;
  width = 4;
  height = 20;
  pixel_format = bgr;
  bytes_per_pixel = 4;
  stride = 4;
}

abbrev bytes : List ℕ
bytes = replicate 320 7

bytes_size : length bytes ≡ 320
bytes_size = length-replicate {A = ℕ} 320 7

info-Consistent : Consistent font info (length bytes)
info-Consistent = record {
  bytes = refl;
  columns = omega arith;
  rows = omega arith;
  stride = omega arith;
  fits = omega (arith, bytes_size);
  small = omega (arith, bytes_size);
}

new-Ready_example :
    Ready font (new bytes info) (2 ^ 58) × ((i : ℕ) → get_or (new bytes info).framebuffer i 0 ≡ 0)
new-Ready_example = new-Ready font bytes info info-Consistent

abbrev fresh : Logger
fresh = record { framebuffer = bytes; info = info; x_pos = 1; y_pos = 1 }

fresh-Ready : Ready font fresh 5
fresh-Ready = record {
  consistent = info-Consistent;
  column = omega arith;
  row = omega arith;
  room = omega arith;
}

-- A letter, a line break, two letters and a carriage return.
write_str-Logs_example : Logs font fresh 0 (write_str font fresh (65 ∷ 10 ∷ 66 ∷ 67 ∷ 13 ∷ []))
write_str-Logs_example = write_str-Logs font fresh (65 ∷ 10 ∷ 66 ∷ 67 ∷ 13 ∷ []) 0 fresh-Ready
