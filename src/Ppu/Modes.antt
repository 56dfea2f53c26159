-- ===== src/Ppu/Modes.antt =====
-- The modes of the picture unit and its clock.
pub mod Validity
pub mod Frame
use zenith_gb.Base.{
  ℕ, ◌+◌, ◌-◌, ◌*◌, ◌/◌, Bool, true, false, not, ◌&&◌, List, Option, none, some, leb, ltb, ◌==◌,
  ◌!=◌, checked_sub, ◌>>=◌, debug_assert, if◌then◌else◌,
}
use zenith_gb.Soc.Context.{
  ClockContext, set_interrupt, set_events, vsync, vsync_and_exit, interrupt_bit_vblank,
}
use zenith_gb.Ppu.{
  Ppu, PpuMode, oam_scan, drawing, h_blank, v_blank, update_lyc_eq_ly, handle_stat_interrupt,
  cycles_per_oam_scan, cycles_per_vblank_line,
}
use zenith_gb.Ppu.Scan.{mode_oam_scan}
use zenith_gb.Ppu.Mode3.{window_pos, calc_mode3_len}

-- Drawing the background panics on a line past the last of `rt`.
abbrev pub check_line : Ppu → Option Bool
check_line p = debug_assert (ltb p.ly 144)

-- Drawing a row of the window, whose line counter is a `u16`: a tile is looked up at `fetcher_x +
-- 32 * (line_count / 8)`, which overflows or not whatever `fetcher_x` is, of 21 tiles at most. Then
-- the counter moves on.
unfoldable pub draw_window_row : Ppu → Option Ppu
draw_window_row p =
    debug_assert (ltb (32 * (p.window_line_counter / 8)) 65536)
    >>= (λ _. some (record p { window_line_counter = p.window_line_counter + 1 }))

-- The window as `draw_window` draws it, but for the pixels.
abbrev pub draw_window_if : Option ℕ → Ppu → Option Ppu
draw_window_if none p = some p
draw_window_if (some x) p = draw_window_row p

-- `mode_draw`. The pixels have no part in the timing; what can panic on their way is the line and
-- the row of the window, since all other indices are masked or bounded by the loops.
pub mode_draw : Ppu → Option (ℕ × Ppu)
mode_draw p =
    let window = window_pos p in
    (check_line p
      >>= (λ _. draw_window_if window p >>= (λ q. calc_mode3_len window q >>= (λ n. some (n, q)))))

-- `update_mode` by the mode; `exit` is what `vsync` returns, that the receiver of frames is gone.
abbrev pub line_drawn : Ppu → ClockContext → Option (Ppu × ClockContext)
line_drawn p ctx =
    mode_draw p
    >>= (λ (n, r). some (record r { cycles_mode = n; draw_length = n; stat_mode = drawing }, ctx))

unfoldable pub enter_draw : Ppu → ClockContext → Option (Ppu × ClockContext)
enter_draw p ctx =
    let q = if p.wy == p.ly then record p { draw_window = true } else p in line_drawn q ctx

unfoldable pub enter_h_blank : Ppu → ClockContext → Option (Ppu × ClockContext)
enter_h_blank p ctx =
    checked_sub 94 p.draw_length
    >>= (λ n. some (record p { cycles_mode = n; stat_mode = h_blank }, ctx))

-- The end of the last visible line.
abbrev enter_v_blank : Bool → Ppu → ClockContext → Ppu × ClockContext
enter_v_blank exit p ctx =
    let ctx1 = if exit then set_events ctx vsync_and_exit else ctx in
    (
      record p {
        draw_window = false;
        window_line_counter = 0;
        cycles_mode = cycles_per_vblank_line;
        stat_mode = v_blank;
      },
      set_events (set_interrupt ctx1 interrupt_bit_vblank) vsync,
    )

unfoldable pub next_line : Bool → Ppu → ClockContext → Option (Ppu × ClockContext)
next_line exit p ctx =
    let q = update_lyc_eq_ly (record p { hblank_cycle = true; ly = p.ly + 1 }) in
    if leb 144 q.ly
    then some (enter_v_blank exit q ctx)
    else (mode_oam_scan q
        >>= (λ r. some (record r { cycles_mode = cycles_per_oam_scan; stat_mode = oam_scan }, ctx)))

unfoldable pub next_v_blank_line : Ppu → ClockContext → Option (Ppu × ClockContext)
next_v_blank_line p ctx =
    let q = record p { ly = p.ly + 1 } in
    if leb 154 q.ly
    then (mode_oam_scan (record q { ly = 0 }) >>= (λ r. some (
      update_lyc_eq_ly (record r { stat_mode = oam_scan; cycles_mode = cycles_per_oam_scan }),
      ctx,
    )))
    else some (update_lyc_eq_ly (record q { cycles_mode = cycles_per_vblank_line }), ctx)

abbrev pub by_mode : PpuMode → Bool → Ppu → ClockContext → Option (Ppu × ClockContext)
by_mode oam_scan exit p ctx = enter_draw p ctx
by_mode drawing exit p ctx = enter_h_blank p ctx
by_mode h_blank exit p ctx = next_line exit p ctx
by_mode v_blank exit p ctx = next_v_blank_line p ctx

pub update_mode : Bool → Ppu → ClockContext → Option (Ppu × ClockContext)
update_mode exit p ctx =
    by_mode p.stat_mode exit p ctx >>= (λ (q, ctx1). some (record q { cycles_frame = 0 }, ctx1))

abbrev pub handle_if_due : Ppu → ClockContext → Ppu × ClockContext
handle_if_due p ctx = if p.check_interrupt then handle_stat_interrupt p ctx else (p, ctx)

pub clock : Bool → Ppu → ClockContext → Option (Ppu × ClockContext)
clock exit p ctx =
    let q = record p { hblank_cycle = false } in
    if not q.lcdc_enable
    then some (handle_if_due q ctx)
    else (debug_assert (leb q.ly 153) >>= (λ _. checked_sub q.cycles_mode 1 >>= (λ cycles.
        let r = record q { cycles_frame = q.cycles_frame + 1; cycles_mode = cycles } in
        if ltb 0 r.cycles_mode
        then some (handle_if_due r ctx)
        else (update_mode exit r ctx >>= (λ (u, ctx1).
            let (v, ctx2) = handle_stat_interrupt u ctx1 in
            debug_assert (v.cycles_mode != 0)
            >>= (λ _. debug_assert (v.cycles_frame == 0) >>= (λ _. some (v, ctx2))))))))
