-- ===== src/Ppu/Registers.antt =====
-- The registers LCDC and STAT, and the line of the STAT interrupt.
use zenith_gb.Base.{
  ℕ, ◌<◌, ◌≡◌, refl, ap, Bool, not, ◌&&◌, ◌||◌, bit_or, of_bool, ◌==◌, ◌!=◌, ◌<<<◌, arith,
  all_below_sound, ==_iff, if◌then◌else◌,
}
use zenith_gb.Soc.Context.{ClockContext, set_interrupt, interrupt_bit_lcd}
use zenith_gb.Ppu.{
  Ppu, oam_scan, h_blank, v_blank, is_mode, bit_set, read_lcdc, write_lcdc, stat_line,
  handle_stat_interrupt,
}

-- The eight bits of a byte joined again.
abbrev joined : ℕ → ℕ
joined v =
    bit_or
      (bit_or
        (bit_or
          (bit_or
            (bit_or
              (bit_or (bit_or (of_bool (bit_set v 7) <<< 7) (of_bool (bit_set v 6) <<< 6))
                (of_bool (bit_set v 5) <<< 5))
              (of_bool (bit_set v 4) <<< 4))
            (of_bool (bit_set v 3) <<< 3))
          (of_bool (bit_set v 2) <<< 2))
        (of_bool (bit_set v 1) <<< 1))
      (of_bool (bit_set v 0))

-- LCDC reads back any byte that is written to it, whatever the picture unit is doing.
pub read-write_lcdc : (p : Ppu) (byte : ℕ) → byte < 256 → read_lcdc (write_lcdc byte p) ≡ byte
unfolding read_lcdc write_lcdc
read-write_lcdc p byte lt =
    (==_iff (joined byte) byte).0 (all_below_sound 256 (λ v. joined v == v) byte refl lt)

-- Whether one of the selected sources of the STAT interrupt holds.
abbrev pub is_raised : Ppu → Bool
is_raised p =
    p.stat_lyc_select && p.stat_lyc_eq_ly
    || p.stat_mode2_select && is_mode p.stat_mode oam_scan
    || p.stat_mode1_select && is_mode p.stat_mode v_blank
    || p.stat_mode0_select && is_mode p.stat_mode h_blank

any_source :
    (a b c d : Bool)
    → (bit_or
          (bit_or
            (bit_or (bit_or 0 (if a then 64 else 0)) (if b then 32 else 0))
            (if c then 16 else 0))
          (if d then 8 else 0)
        != 0)
      ≡ (a || b || c || d)
any_source a b c d = ground arith

stat_line_lem : (p : Ppu) → (stat_line p != 0) ≡ is_raised p
stat_line_lem p =
    any_source (p.stat_lyc_select && p.stat_lyc_eq_ly)
      (p.stat_mode2_select && is_mode p.stat_mode oam_scan)
      (p.stat_mode1_select && is_mode p.stat_mode v_blank)
      (p.stat_mode0_select && is_mode p.stat_mode h_blank)

-- The LCD interrupt is requested exactly when the STAT line goes from low to high: the line is the
-- disjunction of the selected sources, and it is what the next call compares with.
pub handle_stat_interrupt_lem :
    (p : Ppu) (ctx : ClockContext)
    → ((handle_stat_interrupt p ctx).0.stat_interrupt ≡ is_raised p)
      × ((handle_stat_interrupt p ctx).1 ≡ (
          if not p.stat_interrupt && is_raised p then set_interrupt ctx interrupt_bit_lcd else ctx))
unfolding handle_stat_interrupt
handle_stat_interrupt_lem p ctx = (
  stat_line_lem p,
  ap (λ b. if not p.stat_interrupt && b then set_interrupt ctx interrupt_bit_lcd else ctx)
      (stat_line_lem p),
)
