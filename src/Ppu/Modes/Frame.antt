-- ===== src/Ppu/Modes/Frame.antt =====
-- A frame of the picture unit: the vertical blank comes after a known number of clocks.
use zenith_gb.Base.{
  ℕ, suc, ◌+◌, ◌-◌, ◌*◌, ◌≤◌, ◌<◌, ◌≡◌, refl, Bool, true, false, not, List, [], ◌∷◌, Option, some,
  leb, ltb, ◌==◌, length, arith, le→leb, checked_sub, if_cases, sym, ◌∙◌, ◌⊎◌, inl, inr, ◌>>=◌,
  Returns, >>=-Returns, Returns-some, Returns-both, debug_assert-Returns,
}
use zenith_gb.Soc.Context.{ClockContext}
use zenith_gb.Ppu.{
  Ppu, PpuMode, oam_scan, drawing, h_blank, v_blank, update_lyc_eq_ly, handle_stat_interrupt,
}
use zenith_gb.Ppu.Scan.Bounds.{mode_oam_scan_lem}
use zenith_gb.Ppu.Modes.{
  line_drawn, enter_draw, enter_h_blank, next_line, next_v_blank_line, by_mode, update_mode,
  handle_if_due, clock,
}
use zenith_gb.Ppu.Modes.Validity.{
  InMode, Sized, IsValid, mode_draw_lem, one_less, line_le, update_mode_lem, clock-IsValid,
}

-- The clocks from the end of a mode to the next vertical blank: a line takes 114.
abbrev rest : PpuMode → (ly draw_length : ℕ) → ℕ
rest oam_scan ly draw_length = 94 + 114 * (143 - ly)
rest drawing ly draw_length = 94 - draw_length + 114 * (143 - ly)
rest h_blank ly draw_length = 114 * (143 - ly)
rest v_blank ly draw_length = 114 * (153 - ly) + 114 * 144

abbrev pub until_v_blank : Ppu → ℕ
until_v_blank p = p.cycles_mode + rest p.stat_mode p.ly p.draw_length

-- The vertical blank has just begun.
abbrev pub AtVBlank : Ppu → Type 0
AtVBlank p = (p.stat_mode ≡ v_blank) × (p.ly ≡ 144) × (p.cycles_mode ≡ 114)

-- `n` clocks are left, or none and the vertical blank has begun.
abbrev Left : ℕ → Ppu → Type 0
Left n p = (p.lcdc_enable ≡ true) × ((until_v_blank p ≡ n) ⊎ ((n ≡ 0) × AtVBlank p))

abbrev Goes : ℕ → Option (Ppu × ClockContext) → Type 0
Goes n = Returns (λ (r : Ppu × ClockContext). Left n r.0)

module _ (p : Ppu) (ctx : ClockContext) (size : length p.oam ≡ 160)
    (on : p.lcdc_enable ≡ true) where
  drawn :
      (q : Ppu)
      → length q.sprite_buffer ≤ 10
      → q.lcdc_enable ≡ true
      → InMode oam_scan q.ly q.draw_length q.window_line_counter
      → Goes (94 + 114 * (143 - q.ly)) (line_drawn q ctx)
  drawn q few on_q (lt, low) =
      >>=-Returns (mode_draw_lem q few lt (omega arith))
        (λ r (pos, le, (oam, buffer, line, enable, grown)).
          Returns-some (enable ∙ on_q, inl (omega (arith, line, le))))

  enter_draw_lem :
      length p.sprite_buffer ≤ 10
      → InMode oam_scan p.ly p.draw_length p.window_line_counter
      → Goes (94 + 114 * (143 - p.ly)) (enter_draw p ctx)
  unfolding enter_draw
  enter_draw_lem few line =
      if_cases (λ q. Goes (94 + 114 * (143 - p.ly)) (line_drawn q ctx)) (p.wy == p.ly)
        (λ t. drawn (record p { draw_window = true }) few on line) (λ f. drawn p few on line)

  enter_h_blank_lem :
      p.draw_length ≤ 73 → Goes (94 - p.draw_length + 114 * (143 - p.ly)) (enter_h_blank p ctx)
  unfolding enter_h_blank
  enter_h_blank_lem le =
      >>=-Returns (rest_of_line p.draw_length le)
        (λ n eq. Returns-some (on, inl (omega (arith, eq))))
    where
      rest_of_line : (d : ℕ) → d ≤ 73 → Returns (λ n. n ≡ 94 - d) (checked_sub 94 d)
      rest_of_line d h = (94 - d, ground arith, refl)

  next_line_lem : (exit : Bool) → p.ly < 144 → Goes (114 * (143 - p.ly)) (next_line exit p ctx)
  unfolding next_line update_lyc_eq_ly
  next_line_lem exit lt =
      if_cases (Goes (114 * (143 - p.ly))) (leb 144 (p.ly + 1))
        (λ t. Returns-some (on, inr (ground arith, (refl, ground arith, refl))))
        (λ f.
          >>=-Returns
            (mode_oam_scan_lem
              (record p { hblank_cycle = true; ly = p.ly + 1; stat_lyc_eq_ly = p.ly + 1 == p.lyc })
              size)
            (λ r (ten, oam, line, enable, counter). Returns-some (enable ∙ on, inl (ground arith))))

  next_v_blank_line_lem :
      p.stat_mode ≡ v_blank
      → 144 ≤ p.ly
      → p.ly ≤ 153
      → Goes (114 * (153 - p.ly) + 114 * 144) (next_v_blank_line p ctx)
  unfolding next_v_blank_line update_lyc_eq_ly
  next_v_blank_line_lem mode ge le =
      if_cases (Goes (114 * (153 - p.ly) + 114 * 144)) (leb 154 (p.ly + 1))
        (λ t.
          >>=-Returns (mode_oam_scan_lem (record p { ly = 0 }) size)
            (λ r (ten, oam, line, enable, counter).
              Returns-some (enable ∙ on, inl (ground (arith, line)))))
        (λ f. Returns-some (on, inl (simp mode (ground arith))))

  by_mode_lem :
      (exit : Bool) (m : PpuMode)
      → p.stat_mode ≡ m
      → length p.sprite_buffer ≤ 10
      → InMode m p.ly p.draw_length p.window_line_counter
      → Goes (rest m p.ly p.draw_length) (by_mode m exit p ctx)
  by_mode_lem exit oam_scan mode few line = enter_draw_lem few line
  by_mode_lem exit drawing mode few line = enter_h_blank_lem line.0.1
  by_mode_lem exit h_blank mode few line = next_line_lem exit line.0
  by_mode_lem exit v_blank mode few line = next_v_blank_line_lem mode line.0.0 line.0.1

update_mode-Left :
    (exit : Bool) (p : Ppu) (ctx : ClockContext)
    → Sized p
    → p.lcdc_enable ≡ true
    → Goes (rest p.stat_mode p.ly p.draw_length) (update_mode exit p ctx)
unfolding update_mode
update_mode-Left exit p ctx (size, few, line) on =
    >>=-Returns (by_mode_lem p ctx size on exit p.stat_mode refl few line)
      (λ r left. Returns-some left)

handle_if_due-Left :
    {n : ℕ} (p : Ppu) (ctx : ClockContext) → Left n p → Left n (handle_if_due p ctx).0
unfolding handle_stat_interrupt
handle_if_due-Left {n} p ctx left =
    if_cases (λ (r : Ppu × ClockContext). Left n r.0) p.check_interrupt (λ t. left) (λ f. left)

-- A clock of the picture unit takes one from the clocks that are left.
clock-Left :
    (exit : Bool) (p : Ppu) (ctx : ClockContext) (n : ℕ)
    → IsValid p
    → p.lcdc_enable ≡ true
    → until_v_blank p ≡ suc n
    → Goes n (clock exit p ctx)
unfolding clock handle_stat_interrupt
clock-Left exit p ctx n ((size, few, line), pos) on left =
    if_cases (Goes n) (not p.lcdc_enable) (λ off. ground (arith, on))
      (λ shown.
        debug_assert-Returns
          (le→leb p.ly 153 (line_le p.ly p.draw_length p.window_line_counter p.stat_mode line))
          (>>=-Returns (one_less p.cycles_mode pos) (λ m m_eq.
            if_cases (Goes n) (ltb 0 m)
              (λ more.
                Returns-some
                  (handle_if_due-Left (ticked m) ctx (on, inl (omega (arith, left, m_eq)))))
              (λ done.
                let e : rest p.stat_mode p.ly p.draw_length ≡ n = ground (arith, left, m_eq) in
                >>=-Returns
                  (Returns-both (update_mode-Left exit (ticked m) ctx (size, few, line) on)
                    (update_mode_lem exit (ticked m) ctx (size, few, line)))
                  (λ u (next, (valid, fresh)).
                    debug_assert-Returns (ground arith)
                      (debug_assert-Returns (ground arith) (Returns-some (rw (sym e) next))))))))
  where
    ticked : ℕ → Ppu
    ticked m = record p { hblank_cycle = false; cycles_frame = p.cycles_frame + 1; cycles_mode = m }

-- One clock for each answer of `vsync`.
unfoldable pub clocks : List Bool → Ppu → ClockContext → Option (Ppu × ClockContext)
clocks [] p ctx = some (p, ctx)
clocks (exit ∷ exits) p ctx = clock exit p ctx >>= (λ (q, ctx1). clocks exits q ctx1)

stopped :
    (exits : List Bool) (p : Ppu) (ctx : ClockContext)
    → length exits ≡ 0
    → AtVBlank p
    → Returns (λ (r : Ppu × ClockContext). AtVBlank r.0) (clocks exits p ctx)
unfolding clocks
stopped [] p ctx none_left at = Returns-some at
stopped (exit ∷ exits) p ctx none_left at = ground arith

-- On a valid picture unit whose screen is on, and which is not written to, a run of exactly
-- `until_v_blank` clocks does not panic and ends where the vertical blank begins, on line 144 with
-- 114 clocks left of it. That number adds to the clocks left of the mode the rest of the line and
-- 114 for each line to come, of the 154 lines of a frame.
pub clocks-AtVBlank :
    (exits : List Bool) (p : Ppu) (ctx : ClockContext)
    → IsValid p
    → p.lcdc_enable ≡ true
    → length exits ≡ until_v_blank p
    → Returns (λ (r : Ppu × ClockContext). AtVBlank r.0) (clocks exits p ctx)
unfolding clocks
clocks-AtVBlank [] p ctx (_, pos) on left = ground arith
clocks-AtVBlank (exit ∷ exits) p ctx valid on left =
    >>=-Returns
      (Returns-both (clock-Left exit p ctx (length exits) valid on (sym left))
        (clock-IsValid exit p ctx valid))
      (λ (q, ctx1) ((on_q, next), valid_q). elim next [
        | inl e ↦ clocks-AtVBlank exits q ctx1 valid_q on_q (sym e)
        | inr (none_left, at) ↦ stopped exits q ctx1 none_left at
      ])
