-- ===== src/Ppu/Modes/Validity.antt =====
-- The clock of the picture unit never panics: the modes of a line fit its length.
use zenith_gb.Base.{
  ℕ, ◌+◌, ◌-◌, ◌*◌, ◌/◌, ◌≤◌, ◌<◌, ◌≡◌, refl, Bool, true, false, not, Option, none, some, leb, ltb,
  ◌==◌, length, arith, le→leb, checked_sub, if_cases, ap, ◌∙◌, Returns, >>=-Returns, Returns-some,
  debug_assert-Returns,
}
use zenith_gb.Soc.Context.{ClockContext}
use zenith_gb.Ppu.{
  Ppu, PpuMode, oam_scan, drawing, h_blank, v_blank, update_lyc_eq_ly, handle_stat_interrupt,
}
use zenith_gb.Ppu.Scan.Bounds.{mode_oam_scan_lem}
use zenith_gb.Ppu.Mode3.{window_pos}
use zenith_gb.Ppu.Mode3.Bounds.{calc_mode3_len-bounds}
use zenith_gb.Ppu.Modes.{
  mode_draw, draw_window_row, draw_window_if, line_drawn, enter_draw, enter_h_blank, next_line,
  next_v_blank_line, by_mode, update_mode, handle_if_due, clock,
}

-- In which lines a mode stands, how long the drawing of a line took, and how far the line counter
-- of the window may be, so that the lines that are left of a frame do not overflow it.
abbrev pub InMode : PpuMode → (ly draw_length counter : ℕ) → Type 0
InMode oam_scan ly draw_length counter = (ly < 144) × (counter + (144 - ly) ≤ 16384)
InMode drawing ly draw_length counter =
    ((ly < 144) × (draw_length ≤ 73)) × (counter + (143 - ly) ≤ 16384)
InMode h_blank ly draw_length counter = (ly < 144) × (counter + (143 - ly) ≤ 16384)
InMode v_blank ly draw_length counter = ((144 ≤ ly) × (ly ≤ 153)) × (counter ≤ 16240)

-- The object memory has its size, a line at most ten sprites, and the mode fits the line.
abbrev pub Sized : Ppu → Type 0
Sized p =
    (length p.oam ≡ 160)
    × (length p.sprite_buffer ≤ 10)
    × InMode p.stat_mode p.ly p.draw_length p.window_line_counter

abbrev pub IsValid : Ppu → Type 0
IsValid p = Sized p × (1 ≤ p.cycles_mode)

abbrev Goes : Option (Ppu × ClockContext) → Type 0
Goes = Returns (λ (r : Ppu × ClockContext). IsValid r.0)

-- What drawing leaves as it is, and by how much the line counter of the window moves.
abbrev pub Drawn : Ppu → Ppu → Type 0
Drawn p q =
    (q.oam ≡ p.oam)
    × (q.sprite_buffer ≡ p.sprite_buffer)
    × (q.ly ≡ p.ly)
    × (q.lcdc_enable ≡ p.lcdc_enable)
    × (q.window_line_counter ≤ p.window_line_counter + 1)

draw_window_if-Drawn :
    (window : Option ℕ) (p : Ppu)
    → p.window_line_counter < 16384
    → Returns (Drawn p) (draw_window_if window p)
unfolding draw_window_row
draw_window_if-Drawn none p lt = Returns-some (refl, refl, refl, refl, omega arith)
draw_window_if-Drawn (some x) p lt =
    debug_assert-Returns (row p.window_line_counter lt)
      (Returns-some (refl, refl, refl, refl, omega arith))
  where
    row : (n : ℕ) → n < 16384 → ltb (32 * (n / 8)) 65536 ≡ true
    row n h = ground arith

pub mode_draw_lem :
    (p : Ppu)
    → length p.sprite_buffer ≤ 10
    → p.ly < 144
    → p.window_line_counter < 16384
    → Returns (λ (r : ℕ × Ppu). (1 ≤ r.0) × (r.0 ≤ 73) × Drawn p r.1) (mode_draw p)
unfolding mode_draw
mode_draw_lem p few visible lt = debug_assert-Returns (ground arith) (
    >>=-Returns (draw_window_if-Drawn (window_pos p) p lt) (λ q kept.
      >>=-Returns (calc_mode3_len-bounds (window_pos p) q (omega (arith, few, ap length kept.1)))
        (λ n (ge, le). Returns-some (omega arith, le, kept))))

module _ (p : Ppu) (ctx : ClockContext) (size : length p.oam ≡ 160) where
  drawn :
      (q : Ppu)
      → length q.oam ≡ 160
      → length q.sprite_buffer ≤ 10
      → InMode oam_scan q.ly q.draw_length q.window_line_counter
      → Goes (line_drawn q ctx)
  drawn q size few (lt, low) =
      >>=-Returns (mode_draw_lem q few lt (omega arith))
        (λ r (pos, le, (oam, buffer, line, enable, grown)). Returns-some (
          (
            ap length oam ∙ size,
            omega (arith, ap length buffer),
            ((omega (arith, line), le), omega (arith, line)),
          ),
          pos,
        ))

  enter_draw_lem :
      length p.sprite_buffer ≤ 10
      → InMode oam_scan p.ly p.draw_length p.window_line_counter
      → Goes (enter_draw p ctx)
  unfolding enter_draw
  enter_draw_lem few lt =
      if_cases (λ q. Goes (line_drawn q ctx)) (p.wy == p.ly)
        (λ t. drawn (record p { draw_window = true }) size few lt) (λ f. drawn p size few lt)

  enter_h_blank_lem :
      length p.sprite_buffer ≤ 10
      → InMode drawing p.ly p.draw_length p.window_line_counter
      → Goes (enter_h_blank p ctx)
  unfolding enter_h_blank
  enter_h_blank_lem few ((lt, le), low) =
      >>=-Returns (rest_of_line p.draw_length le)
        (λ n pos. Returns-some ((size, few, (lt, low)), pos))
    where
      rest_of_line : (d : ℕ) → d ≤ 73 → Returns (λ n. 1 ≤ n) (checked_sub 94 d)
      rest_of_line d h = (94 - d, ground arith, omega arith)

  next_line_lem :
      (exit : Bool)
      → length p.sprite_buffer ≤ 10
      → InMode h_blank p.ly p.draw_length p.window_line_counter
      → Goes (next_line exit p ctx)
  unfolding next_line update_lyc_eq_ly
  next_line_lem exit few (lt, low) =
      if_cases Goes (leb 144 (p.ly + 1))
        (λ t. Returns-some ((size, few, ((ground arith, omega arith), omega arith)), omega arith))
        (λ f.
          >>=-Returns
            (mode_oam_scan_lem
              (record p { hblank_cycle = true; ly = p.ly + 1; stat_lyc_eq_ly = p.ly + 1 == p.lyc })
              size)
            (λ r (ten, oam, line, enable, counter).
              Returns-some (
                (ap length oam ∙ size, ten, (ground arith, ground (arith, counter))),
                omega arith,
              )))

  next_v_blank_line_lem :
      p.stat_mode ≡ v_blank
      → length p.sprite_buffer ≤ 10
      → InMode v_blank p.ly p.draw_length p.window_line_counter
      → Goes (next_v_blank_line p ctx)
  unfolding next_v_blank_line update_lyc_eq_ly
  next_v_blank_line_lem mode few ((ge, le), low) =
      if_cases Goes (leb 154 (p.ly + 1))
        (λ t.
          >>=-Returns (mode_oam_scan_lem (record p { ly = 0 }) size)
            (λ r (ten, oam, line, enable, counter). Returns-some (
              (ap length oam ∙ size, ten, (omega (arith, line), omega (arith, line, counter))),
              omega arith,
            )))
        (λ f.
          let stays : InMode p.stat_mode (p.ly + 1) p.draw_length p.window_line_counter =
            simp mode ((omega arith, ground arith), low) in
          Returns-some ((size, few, stays), omega arith))

  by_mode_lem :
      (exit : Bool) (m : PpuMode)
      → p.stat_mode ≡ m
      → length p.sprite_buffer ≤ 10
      → InMode m p.ly p.draw_length p.window_line_counter
      → Goes (by_mode m exit p ctx)
  by_mode_lem exit oam_scan mode few line = enter_draw_lem few line
  by_mode_lem exit drawing mode few line = enter_h_blank_lem few line
  by_mode_lem exit h_blank mode few line = next_line_lem exit few line
  by_mode_lem exit v_blank mode few line = next_v_blank_line_lem mode few line

-- Handling the STAT interrupt touches neither the mode nor the line.
handle_if_due-IsValid : (p : Ppu) (ctx : ClockContext) → IsValid p → IsValid (handle_if_due p ctx).0
unfolding handle_stat_interrupt
handle_if_due-IsValid p ctx valid =
    if_cases (λ (r : Ppu × ClockContext). IsValid r.0) p.check_interrupt (λ t. valid) (λ f. valid)

pub update_mode_lem :
    (exit : Bool) (p : Ppu) (ctx : ClockContext)
    → Sized p
    → Returns
        (λ (r : Ppu × ClockContext). IsValid r.0 × (r.0.cycles_frame ≡ 0))
        (update_mode exit p ctx)
unfolding update_mode
update_mode_lem exit p ctx (size, few, line) =
    >>=-Returns (by_mode_lem p ctx size exit p.stat_mode refl few line)
      (λ r valid. Returns-some (valid, refl))

pub one_less : (n : ℕ) → 1 ≤ n → Returns (λ m. m + 1 ≡ n) (checked_sub n 1)
one_less n h = (n - 1, ground arith, omega arith)

pub line_le :
    (ly draw_length counter : ℕ) (m : PpuMode) → InMode m ly draw_length counter → ly ≤ 153
line_le ly draw_length counter oam_scan h = omega (arith, h.0)
line_le ly draw_length counter drawing h = omega (arith, h.0.0)
line_le ly draw_length counter h_blank h = omega (arith, h.0)
line_le ly draw_length counter v_blank h = h.0.1

-- On a valid picture unit (an object memory of 160 bytes, at most ten sprites on the line, cycles
-- left in the mode, a line that fits the mode, and a line counter of the window that the lines left
-- of the frame cannot bring to 16384) a clock does not panic and leaves it valid, whether or not the
-- receiver of frames is gone.
pub clock-IsValid :
    (exit : Bool) (p : Ppu) (ctx : ClockContext)
    → IsValid p
    → Returns (λ (r : Ppu × ClockContext). IsValid r.0) (clock exit p ctx)
unfolding clock handle_stat_interrupt
clock-IsValid exit p ctx ((size, few, line), pos) =
    if_cases Goes (not p.lcdc_enable)
      (λ off.
        Returns-some
          (handle_if_due-IsValid (record p { hblank_cycle = false }) ctx ((size, few, line), pos)))
      (λ on.
        debug_assert-Returns
          (le→leb p.ly 153 (line_le p.ly p.draw_length p.window_line_counter p.stat_mode line))
          (>>=-Returns (one_less p.cycles_mode pos) (λ n n_eq.
            if_cases Goes (ltb 0 n)
              (λ more.
                Returns-some
                  (handle_if_due-IsValid (ticked n) ctx ((size, few, line), ground arith)))
              (λ done.
                >>=-Returns (update_mode_lem exit (ticked n) ctx (size, few, line))
                  (λ u (valid, fresh).
                    debug_assert-Returns (ground arith)
                      (debug_assert-Returns (ground arith) (Returns-some valid)))))))
  where
    ticked : ℕ → Ppu
    ticked n = record p { hblank_cycle = false; cycles_frame = p.cycles_frame + 1; cycles_mode = n }
