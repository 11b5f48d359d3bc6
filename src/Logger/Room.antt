-- ===== src/Logger/Room.antt =====
-- Line breaks and clearing make room for a character.
use uefi_bootloader.Prelude.{
  ℕ, ◌+◌, ◌*◌, ◌^◌, ◌≤◌, ◌<◌, ◌≡◌, refl, ap, ◌∙◌, inl, inr, arith, leb, if◌then◌else◌, leb→lt,
  Bool-cases, length, ◌+w◌, Outcome, ok,
}
use uefi_bootloader.Logger.{
  Font, Logger, carriage_return, newline, clear, make_room, char_raster_height, border_padding,
}
use uefi_bootloader.Logger.Pixels.{Consistent, below, length-blank}

module _ (font : Font) where
  -- What holds before each character: at most `n` more line breaks still keep the row number small.
  pub record Ready (s : Logger) (n : ℕ) : Type 0 where
    pub consistent : Consistent font s.info (length s.framebuffer)
    pub column : s.x_pos ≤ s.info.width
    pub row : 1 ≤ s.y_pos
    pub room : s.y_pos + 18 * n < 2 ^ 63

  -- `r` is a logger for the same frame buffer, ready for `n` line breaks.
  pub record Logs (s : Logger) (n : ℕ) (r : Outcome Logger) : Type 0 where
    pub after : Logger
    pub returns : r ≡ ok after
    pub info : after.info ≡ s.info
    pub size : length after.framebuffer ≡ length s.framebuffer
    pub ready : Ready after n

  -- There is room for a character.
  pub record Room (s s' : Logger) (n : ℕ) : Type 0 where
    pub info : s'.info ≡ s.info
    pub size : length s'.framebuffer ≡ length s.framebuffer
    pub consistent : Consistent font s'.info (length s'.framebuffer)
    pub column : s'.x_pos + font.raster_width ≤ s'.info.width
    pub row : 1 ≤ s'.y_pos
    pub rows : s'.y_pos + 16 ≤ s'.info.height
    pub room : s'.y_pos + 18 * n < 2 ^ 63

  break_line : Logger → Logger
  unfolding newline
  break_line s = if leb s.info.width (s.x_pos +w font.raster_width) then newline s else s

  record Broken (s s' : Logger) (n : ℕ) : Type 0 where
    info : s'.info ≡ s.info
    size : s'.framebuffer ≡ s.framebuffer
    column : s'.x_pos + font.raster_width ≤ s'.info.width
    row : 1 ≤ s'.y_pos
    room : s'.y_pos + 18 * n < 2 ^ 63

  break_line-Broken : (s : Logger) (n : ℕ) → Ready s (n + 1) → Broken s (break_line s) n
  unfolding break_line newline carriage_return
  break_line-Broken s n h =
      let c = h.consistent in
      let b = below font s.info (length s.framebuffer) c in
      elim (Bool-cases (leb s.info.width (s.x_pos +w font.raster_width))) [
        | inl e ↦ rw e (record {
          info = refl;
          size = refl;
          column = omega (arith, c.columns);
          row = omega (arith, h.row, h.room);
          room = omega (arith, h.room);
        })
        | inr e ↦ rw e (record {
          info = refl;
          size = refl;
          column = omega (arith, leb→lt _ _ e, h.column, b.0, c.stride, c.columns);
          row = h.row;
          room = omega (arith, h.room);
        })
      ]

  clear_full : Logger → Logger
  unfolding clear
  clear_full s =
      if leb s.info.height (s.y_pos +w (char_raster_height + border_padding)) then clear s else s

  clear_full-Room :
      (s : Logger) (n : ℕ)
      → Consistent font s.info (length s.framebuffer)
      → s.x_pos + font.raster_width ≤ s.info.width
      → 1 ≤ s.y_pos
      → s.y_pos + 18 * n < 2 ^ 63
      → Room s (clear_full s) n
  unfolding clear_full clear
  clear_full-Room s n c column row room =
      let blank = length-blank s.framebuffer in
      elim (Bool-cases (leb s.info.height (s.y_pos +w (char_raster_height + border_padding)))) [
        | inl e ↦ rw e (record {
          info = refl;
          size = blank;
          consistent = rw blank c;
          column = omega (arith, c.columns);
          row = omega arith;
          rows = omega (arith, c.rows);
          room = omega (arith, row, room);
        })
        | inr e ↦ rw e (record {
          info = refl;
          size = refl;
          consistent = c;
          column = column;
          row = row;
          rows = omega (arith, leb→lt _ _ e, room);
          room = room;
        })
      ]

  make_room-eq : (s : Logger) → make_room font s ≡ clear_full (break_line s)
  unfolding make_room clear_full break_line
  make_room-eq s = refl

  pub make_room-Room : (s : Logger) (n : ℕ) → Ready s (n + 1) → Room s (make_room font s) n
  make_room-Room s n h =
      let b = break_line-Broken s n h in
      let c : Consistent font (break_line s).info (length (break_line s).framebuffer) =
        rw (b.info, b.size) h.consistent in
      let r = clear_full-Room (break_line s) n c b.column b.row b.room in
      rw (make_room-eq s) (record {
        info = r.info ∙ b.info;
        size = r.size ∙ ap length b.size;
        consistent = r.consistent;
        column = r.column;
        row = r.row;
        rows = r.rows;
        room = r.room;
      })
