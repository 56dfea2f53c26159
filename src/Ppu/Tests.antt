-- ===== src/Ppu/Tests.antt =====
-- The picture unit at the end of the scan of a line that one sprite crosses.
use zenith_gb.Base.{
  ℕ, ◌%◌, ◌==◌, length-replicate, ◌≤◌, ◌≡◌, refl, true, false, not, some, [], ◌∷◌, replicate, arith,
  Returns, if◌then◌else◌,
}
use zenith_gb.Gameboy.{mode_dmg}
use zenith_gb.Soc.Context.{ClockContext}
use zenith_gb.Ppu.{Ppu, oam_scan, drawing}
use zenith_gb.Ppu.Memory.{read_vram, read_vram_banked, write_vram}
use zenith_gb.Ppu.Memory.Banks.{write_vram-read_vram}
use zenith_gb.Ppu.Mode3.{calc_mode3_len}
use zenith_gb.Ppu.Mode3.Bounds.{calc_mode3_len-bounds}
use zenith_gb.Ppu.Modes.{clock}
use zenith_gb.Ppu.Modes.Validity.{IsValid, clock-IsValid}
use zenith_gb.Ppu.Modes.Frame.{clocks, AtVBlank, clocks-AtVBlank}

abbrev scanning : Ppu
scanning = record {
  cgb = false;
  comp_mode = mode_dmg;
  cycles_mode = 1;
  cycles_frame = 19;
  draw_length = 0;
  stat_interrupt = false;
  vram = replicate 0x4000 0;
  oam = replicate 160 0;
  sprite_buffer = record { y = 20; x = 30; tile = 1; attr = 0 } ∷ [];
  draw_window = false;
  window_line_counter = 0;
  lcdc_enable = true;
  lcdc_wnd_tilemap = false;
  lcdc_wnd_enable = true;
  lcdc_bg_wnd_tiles = true;
  lcdc_bg_tilemap = false;
  lcdc_obj_size = false;
  lcdc_obj_enable = true;
  lcdc_bit_0 = true;
  stat_lyc_select = false;
  stat_mode2_select = true;
  stat_mode1_select = false;
  stat_mode0_select = false;
  stat_lyc_eq_ly = false;
  stat_mode = oam_scan;
  ly = 7;
  lyc = 0;
  scy = 0;
  scx = 5;
  wx = 7;
  wy = 7;
  bgp = 0xfc;
  obp0 = 0xff;
  obp1 = 0xff;
  cgb_bg_palettes = replicate 64 0xff;
  cgb_ob_palettes = replicate 64 0xff;
  vbk = false;
  opri = true;
  bcps = 0;
  ocps = 0;
  hblank_cycle = false;
  check_interrupt = false;
}

abbrev quiet : ClockContext
quiet = record { interrupts = 0; events = 0 }

calc_mode3_len-bounds_example :
    Returns (λ n. (43 ≤ n) × (n ≤ 73)) (calc_mode3_len (some 0) scanning)
calc_mode3_len-bounds_example = calc_mode3_len-bounds (some 0) scanning (omega arith)

clock-IsValid_example :
    Returns (λ (r : Ppu × ClockContext). IsValid r.0) (clock false scanning quiet)
clock-IsValid_example =
    clock-IsValid false scanning quiet
      ((refl, omega arith, (omega arith, omega arith)), omega arith)

-- The last visible line, while it is drawn: 36 clocks are left of it.
abbrev last_line : Ppu
last_line = record scanning { stat_mode = drawing; draw_length = 60; cycles_mode = 2; ly = 143 }

clocks-AtVBlank_example :
    Returns (λ (r : Ppu × ClockContext). AtVBlank r.0) (clocks (replicate 36 false) last_line quiet)
clocks-AtVBlank_example =
    clocks-AtVBlank (replicate 36 false) last_line quiet
      ((refl, omega arith, ((omega arith, omega arith), omega arith)), omega arith) refl refl

-- A byte for the second bank, written at 0x8003 and read at 0xa003.
abbrev second_bank : Ppu
second_bank = record scanning { vbk = true }

write_vram-read_vram_example :
    Returns
      (λ (q : Ppu).
        (read_vram 0xa003 q
          ≡ (if 0x8003 % 8192 == 0xa003 % 8192 then some 9 else read_vram 0xa003 second_bank))
        × (read_vram_banked (not second_bank.vbk) 0xa003 q
            ≡ read_vram_banked (not second_bank.vbk) 0xa003 second_bank))
      (write_vram 0x8003 9 second_bank)
write_vram-read_vram_example =
    write_vram-read_vram second_bank 0x8003 0xa003 9 (length-replicate {A = ℕ} 0x4000 0) refl
