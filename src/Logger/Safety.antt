-- ===== src/Logger/Safety.antt =====
-- Logging never panics: every byte written lies in the frame buffer.
use uefi_bootloader.Prelude.{
  ℕ, ◌+◌, ◌*◌, ◌^◌, ◌≤◌, ◌<◌, ◌≡◌, refl, ◌∙◌, inl, inr, List, [], ◌∷◌, arith, ◌==◌, Bool-cases,
  Option-cases, length, get_or, get_or-replicate, All, ◌+w◌, Outcome, ◌>>=◌, ok,
}
use uefi_bootloader.Api.{FrameBufferInfo}
use uefi_bootloader.Logger.{
  RasterizedChar, Font, get_char_raster, Logger, carriage_return, newline, clear, new,
  write_rendered_char, make_room, write_char, letter_spacing, backup_char, write_str,
}
use uefi_bootloader.Logger.Pixels.{Consistent, below, length-blank, write_rows-Draws}
use uefi_bootloader.Logger.Room.{Ready, Logs, Room, make_room-Room}

module _ (font : Font) where
  write_rendered_char-Logs :
      (s : Logger) (n : ℕ) (r : RasterizedChar)
      → Consistent font s.info (length s.framebuffer)
      → s.x_pos + font.raster_width ≤ s.info.width
      → 1 ≤ s.y_pos
      → s.y_pos + 16 ≤ s.info.height
      → s.y_pos + 18 * n < 2 ^ 63
      → length r.raster ≡ 16
      → r.width ≡ font.raster_width
      → All (λ row. length row ≡ font.raster_width) r.raster
      → Logs font s n (write_rendered_char s r)
  unfolding write_rendered_char
  write_rendered_char-Logs s n r c column row rows room height width widths =
      let d = write_rows-Draws font s 0 r.raster c column widths (omega (arith, height)) in
      let b = below font s.info (length s.framebuffer) c in
      record {
        after = record s {
          framebuffer = d.framebuffer;
          x_pos = s.x_pos +w (r.width + letter_spacing);
        };
        returns = rw d.returns;
        info = refl;
        size = d.size;
        ready = record {
          consistent = rw d.size c;
          column = omega (arith, width, b.0, c.stride);
          row = row;
          room = room;
        };
      }

  data Found : Outcome RasterizedChar → Type 0 where
    found :
        (r : RasterizedChar)
        → length r.raster ≡ 16
        → r.width ≡ font.raster_width
        → All (λ row. length row ≡ font.raster_width) r.raster
        → Found (ok r)

  get_char_raster-Found : (c : ℕ) → Found (get_char_raster font c)
  unfolding get_char_raster
  get_char_raster-Found c = elim (Option-cases (font.get_raster c)) [
    | inl e ↦
        let (r, f) = font.get_raster_backup in
        let z = font.get_raster-size backup_char r f in rw (e, f) (found r z.0 z.1 z.2)
    | inr (r, f) ↦ let z = font.get_raster-size c r f in rw f (found r z.0 z.1 z.2)
  ]

  drawn : Logger → Outcome RasterizedChar → Outcome Logger
  drawn s o = o >>= λ r. write_rendered_char s r

  drawn-Logs :
      (s s' : Logger) (n : ℕ) {o : Outcome RasterizedChar}
      → Found o
      → Room font s s' n
      → Logs font s n (drawn s' o)
  unfolding drawn
  drawn-Logs s s' n (found r height width widths) m =
      let l =
        write_rendered_char-Logs s' n r m.consistent m.column m.row m.rows m.room height width
          widths in
      record {
        after = l.after;
        returns = l.returns;
        info = l.info ∙ m.info;
        size = l.size ∙ m.size;
        ready = l.ready;
      }

  -- Writing a character, control characters included.
  write_char-Logs :
      (s : Logger) (n c : ℕ) → Ready font s (n + 1) → Logs font s n (write_char font s c)
  unfolding write_char newline carriage_return drawn
  write_char-Logs s n c h = elim (Bool-cases (c == 10)) [
    | inl e ↦ rw e (record {
      after = newline s;
      returns = refl;
      info = refl;
      size = refl;
      ready = record {
        consistent = h.consistent;
        column = omega (arith, h.consistent.columns);
        row = omega (arith, h.row, h.room);
        room = omega (arith, h.room);
      };
    })
    | inr e ↦ elim (Bool-cases (c == 13)) [
      | inl f ↦
          rw (e, f)
            (record {
              after = carriage_return s;
              returns = refl;
              info = refl;
              size = refl;
              ready = record {
                consistent = h.consistent;
                column = omega (arith, h.consistent.columns);
                row = h.row;
                room = omega (arith, h.room);
              };
            })
      | inr f ↦
          rw (e, f)
            (drawn-Logs s (make_room font s) n (get_char_raster-Found c)
              (make_room-Room font s n h))
    ]
  ]

  -- A logger that is ready for as many line breaks as there are characters writes a string without a
  -- panic, whatever the characters are: no byte outside the frame buffer is touched, its size and
  -- description stay, and the cursor stays in the frame buffer's width.
  pub write_str-Logs :
      (s : Logger) (cs : List ℕ) (n : ℕ)
      → Ready font s (n + length cs)
      → Logs font s n (write_str font s cs)
  unfolding write_str
  write_str-Logs s [] n h = record {
    after = s;
    returns = refl;
    info = refl;
    size = refl;
    ready = record {
      consistent = h.consistent;
      column = h.column;
      row = h.row;
      room = omega (arith, h.room);
    };
  }
  write_str-Logs s (c ∷ cs) n h =
      let ready : Ready font s (n + length cs + 1) = record {
        consistent = h.consistent;
        column = h.column;
        row = h.row;
        room = omega (arith, h.room);
      } in
      let first = write_char-Logs s (n + length cs) c ready in
      let rest = write_str-Logs first.after cs n first.ready in
      record {
        after = rest.after;
        returns = rw (first.returns, rest.returns);
        info = rest.info ∙ first.info;
        size = rest.size ∙ first.size;
        ready = rest.ready;
      }

  -- A new logger for a frame buffer of the right size is ready for `2 ^ 58` line breaks, and shows
  -- nothing.
  pub new-Ready :
      (framebuffer : List ℕ) (info : FrameBufferInfo)
      → Consistent font info (length framebuffer)
      → Ready font (new framebuffer info) (2 ^ 58)
        × ((i : ℕ) → get_or (new framebuffer info).framebuffer i 0 ≡ 0)
  unfolding new clear
  new-Ready framebuffer info c = (
    record {
      consistent = rw (length-blank framebuffer) c;
      column = omega (arith, c.columns);
      row = omega arith;
      room = omega arith;
    },
    get_or-replicate {A = ℕ} (length framebuffer) 0,
  )
