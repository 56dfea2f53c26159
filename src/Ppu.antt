-- ===== src/Ppu.antt =====
-- src/ppu/ppu.rs: the state of the picture unit and its control registers.
--
-- The drawing itself is left out, with the state that only it keeps: what the timing of a line
-- depends on is the mode, the registers, the object memory and the sprites of the line.
pub mod Scan
pub mod Mode3
pub mod Modes
pub mod Registers
pub mod Memory
mod Tests
use zenith_gb.Base.{
  ℕ, ◌+◌, ◌-◌, ◌*◌, ◌^◌, Bool, true, false, not, replicate, ◌&&◌, ◌||◌, List, [], bit_and, bit_or,
  of_bool, ◌==◌, ◌!=◌, ◌<<<◌, if◌then◌else◌,
}
use zenith_gb.Gameboy.{CompatibilityMode}
use zenith_gb.Soc.Context.{ClockContext, set_interrupt, interrupt_bit_lcd}

pub data PpuMode : Type 0 where
  oam_scan : PpuMode
  drawing : PpuMode
  h_blank : PpuMode
  v_blank : PpuMode

-- `self.stat_mode as u8`
abbrev pub mode_code : PpuMode → ℕ
mode_code oam_scan = 2
mode_code drawing = 3
mode_code h_blank = 0
mode_code v_blank = 1

pub record Sprite : Type 0 where
  pub y : ℕ
  pub x : ℕ
  pub tile : ℕ
  pub attr : ℕ

pub record Ppu : Type 0 where
  pub cgb : Bool
  pub comp_mode : CompatibilityMode
  pub cycles_mode : ℕ
  pub cycles_frame : ℕ
  pub draw_length : ℕ
  pub stat_interrupt : Bool
  pub vram : List ℕ
  pub oam : List ℕ
  pub sprite_buffer : List Sprite
  pub draw_window : Bool
  pub window_line_counter : ℕ
  pub lcdc_enable : Bool
  pub lcdc_wnd_tilemap : Bool
  pub lcdc_wnd_enable : Bool
  pub lcdc_bg_wnd_tiles : Bool
  pub lcdc_bg_tilemap : Bool
  pub lcdc_obj_size : Bool
  pub lcdc_obj_enable : Bool
  pub lcdc_bit_0 : Bool
  pub stat_lyc_select : Bool
  pub stat_mode2_select : Bool
  pub stat_mode1_select : Bool
  pub stat_mode0_select : Bool
  pub stat_lyc_eq_ly : Bool
  pub stat_mode : PpuMode
  pub ly : ℕ
  pub lyc : ℕ
  pub scy : ℕ
  pub scx : ℕ
  pub wx : ℕ
  pub wy : ℕ
  pub bgp : ℕ
  pub obp0 : ℕ
  pub obp1 : ℕ
  pub cgb_bg_palettes : List ℕ
  pub cgb_ob_palettes : List ℕ
  pub vbk : Bool
  pub opri : Bool
  pub bcps : ℕ
  pub ocps : ℕ
  pub hblank_cycle : Bool
  pub check_interrupt : Bool

abbrev pub cycles_per_oam_scan : ℕ
cycles_per_oam_scan = 20

abbrev pub cycles_per_draw : ℕ
cycles_per_draw = 43

abbrev pub cycles_per_vblank_line : ℕ
cycles_per_vblank_line = 114

unfoldable pub new : Bool → CompatibilityMode → Ppu
new cgb comp_mode = record {
  cgb = cgb;
  comp_mode = comp_mode;
  cycles_mode = cycles_per_oam_scan;
  cycles_frame = 0;
  draw_length = 0;
  stat_interrupt = false;
  vram = replicate 0x4000 0;
  oam = replicate 0xa0 0;
  sprite_buffer = [];
  draw_window = false;
  window_line_counter = 0;
  lcdc_enable = true;
  lcdc_wnd_tilemap = false;
  lcdc_wnd_enable = false;
  lcdc_bg_wnd_tiles = true;
  lcdc_bg_tilemap = false;
  lcdc_obj_size = false;
  lcdc_obj_enable = false;
  lcdc_bit_0 = true;
  stat_lyc_select = false;
  stat_mode2_select = false;
  stat_mode1_select = false;
  stat_mode0_select = false;
  stat_lyc_eq_ly = true;
  stat_mode = oam_scan;
  ly = 0;
  lyc = 0;
  scy = 0;
  scx = 0;
  wx = 0;
  wy = 0;
  bgp = 0xfc;
  obp0 = 0xff;
  obp1 = 0xff;
  cgb_bg_palettes = replicate 0x40 0xff;
  cgb_ob_palettes = replicate 0x40 0xff;
  vbk = false;
  opri = not cgb;
  bcps = 0x88;
  ocps = 0x90;
  hblank_cycle = false;
  check_interrupt = false;
}

unfoldable pub reset : Ppu → Ppu
reset p = record p {
  ly = 0;
  sprite_buffer = [];
  cycles_frame = 0;
  cycles_mode = cycles_per_oam_scan;
  draw_length = 0;
  stat_mode = h_blank;
}

unfoldable pub update_lyc_eq_ly : Ppu → Ppu
update_lyc_eq_ly p = record p { stat_lyc_eq_ly = p.ly == p.lyc }

unfoldable pub read_lcdc : Ppu → ℕ
read_lcdc p =
    bit_or
      (bit_or
        (bit_or
          (bit_or
            (bit_or
              (bit_or (bit_or (of_bool p.lcdc_enable <<< 7) (of_bool p.lcdc_wnd_tilemap <<< 6))
                (of_bool p.lcdc_wnd_enable <<< 5))
              (of_bool p.lcdc_bg_wnd_tiles <<< 4))
            (of_bool p.lcdc_bg_tilemap <<< 3))
          (of_bool p.lcdc_obj_size <<< 2))
        (of_bool p.lcdc_obj_enable <<< 1))
      (of_bool p.lcdc_bit_0)

-- `data & (1 << k) != 0`
abbrev pub bit_set : ℕ → ℕ → Bool
bit_set byte k = bit_and byte (2 ^ k) != 0

-- What a change of the enable bit does, before the bits are stored.
abbrev pub switch_lcd : Bool → Ppu → Ppu
switch_lcd enable_next p =
    if p.lcdc_enable && not enable_next
    then record (reset p) { check_interrupt = true }
    else if not p.lcdc_enable && enable_next
    then record (update_lyc_eq_ly p) { check_interrupt = true }
    else p

unfoldable pub write_lcdc : ℕ → Ppu → Ppu
write_lcdc byte p = record (switch_lcd (bit_set byte 7) p) {
  lcdc_enable = bit_set byte 7;
  lcdc_wnd_tilemap = bit_set byte 6;
  lcdc_wnd_enable = bit_set byte 5;
  lcdc_bg_wnd_tiles = bit_set byte 4;
  lcdc_bg_tilemap = bit_set byte 3;
  lcdc_obj_size = bit_set byte 2;
  lcdc_obj_enable = bit_set byte 1;
  lcdc_bit_0 = bit_set byte 0;
}

unfoldable pub read_stat : Ppu → ℕ
read_stat p =
    bit_or
      (bit_or
        (bit_or
          (bit_or
            (bit_or (bit_or (of_bool p.stat_lyc_select <<< 6) (of_bool p.stat_mode2_select <<< 5))
              (of_bool p.stat_mode1_select <<< 4))
            (of_bool p.stat_mode0_select <<< 3))
          (of_bool p.stat_lyc_eq_ly <<< 2))
        (mode_code p.stat_mode))
      0x80

unfoldable pub write_stat : ℕ → Ppu → Ppu
write_stat byte p = record p {
  stat_lyc_select = bit_set byte 6;
  stat_mode2_select = bit_set byte 5;
  stat_mode1_select = bit_set byte 4;
  stat_mode0_select = bit_set byte 3;
  check_interrupt = true;
}

unfoldable pub write_lyc : ℕ → Ppu → Ppu
write_lyc byte p =
    let q = record p { lyc = byte } in
    if q.lcdc_enable then record (update_lyc_eq_ly q) { check_interrupt = true } else q

abbrev pub is_mode : PpuMode → PpuMode → Bool
is_mode a b = mode_code a == mode_code b

-- The four sources of the STAT interrupt, joined.
abbrev pub stat_line : Ppu → ℕ
stat_line p =
    let lyc = if p.stat_lyc_select && p.stat_lyc_eq_ly then 64 else 0 in
    let mode2 = if p.stat_mode2_select && is_mode p.stat_mode oam_scan then 32 else 0 in
    let mode1 = if p.stat_mode1_select && is_mode p.stat_mode v_blank then 16 else 0 in
    let mode0 = if p.stat_mode0_select && is_mode p.stat_mode h_blank then 8 else 0 in
    bit_or (bit_or (bit_or (bit_or 0 lyc) mode2) mode1) mode0

unfoldable pub handle_stat_interrupt : Ppu → ClockContext → Ppu × ClockContext
handle_stat_interrupt p ctx =
    let line = stat_line p in
    (
      record p { stat_interrupt = line != 0; check_interrupt = false },
      if not p.stat_interrupt && line != 0 then set_interrupt ctx interrupt_bit_lcd else ctx,
    )
