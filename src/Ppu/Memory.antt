-- ===== src/Ppu/Memory.antt =====
-- The memory of the picture unit as the rest of the machine sees it: OAM, VRAM and the palettes.
pub mod Banks
use zenith_gb.Base.{
  ℕ, ◌+◌, ◌*◌, ◌^◌, ◌≡◌, refl, Bool, true, false, not, List, Option, none, some, ◌==◌, ◌!=◌,
  bit_and, bit_or, of_bool, get_elem?, set?, length, ◌>>=◌, if◌then◌else◌, arith, ◌<◌,
}
use zenith_gb.Ppu.{Ppu, PpuMode, oam_scan, drawing, h_blank, v_blank}
use zenith_gb.Gameboy.{CompatibilityMode, mode_dmg, mode_cgb, mode_cgb_dmg}

-- The modes in which the object memory and the video memory are locked.
abbrev oam_locked : PpuMode → Bool
oam_locked oam_scan = true
oam_locked drawing = true
oam_locked h_blank = false
oam_locked v_blank = false

abbrev vram_locked : PpuMode → Bool
vram_locked oam_scan = false
vram_locked drawing = true
vram_locked h_blank = false
vram_locked v_blank = false

abbrev pub is_dmg : CompatibilityMode → Bool
is_dmg mode_dmg = true
is_dmg mode_cgb_dmg = false
is_dmg mode_cgb = false

unfoldable pub read_oam : ℕ → Ppu → Option ℕ
read_oam addr p = if oam_locked p.stat_mode then some 0xff else get_elem? p.oam (bit_and addr 0xff)

unfoldable pub oam_dma : ℕ → ℕ → Ppu → Option Ppu
oam_dma addr byte p = set? p.oam (bit_and addr 0xff) byte >>= (λ oam. some (record p { oam = oam }))

unfoldable pub write_oam : ℕ → ℕ → Ppu → Option Ppu
write_oam addr byte p = if oam_locked p.stat_mode then some p else oam_dma addr byte p

abbrev pub vram_addr : Bool → ℕ → ℕ
vram_addr bank_1 addr = bit_and addr 0x1fff + of_bool bank_1 * 0x2000

unfoldable pub read_vram_banked : Bool → ℕ → Ppu → Option ℕ
read_vram_banked bank_1 addr p = get_elem? p.vram (vram_addr bank_1 addr)

unfoldable pub read_vram : ℕ → Ppu → Option ℕ
read_vram addr p =
    if vram_locked p.stat_mode then some 0xff else read_vram_banked p.vbk (bit_and addr 0x1fff) p

unfoldable pub write_vram : ℕ → ℕ → Ppu → Option Ppu
write_vram addr byte p =
    if vram_locked p.stat_mode
    then some p
    else set? p.vram (vram_addr p.vbk addr) byte >>= (λ vram. some (record p { vram = vram }))

unfoldable pub read_vbk : Ppu → ℕ
read_vbk p = if not (is_dmg p.comp_mode) then bit_or (of_bool p.vbk) 0xfe else 0xff

unfoldable pub write_vbk : ℕ → Ppu → Ppu
write_vbk byte p = if p.cgb then record p { vbk = bit_and byte 1 != 0 } else p

unfoldable pub read_bcps : Ppu → ℕ
read_bcps p = if is_dmg p.comp_mode then 0xff else bit_or p.bcps 0x40

unfoldable pub write_bcps : ℕ → Ppu → Ppu
write_bcps byte p = if not p.cgb then p else record p { bcps = bit_and byte 0xbf }

unfoldable pub read_bcpd : Ppu → Option ℕ
read_bcpd p =
    if not p.cgb
    then some 0xff
    else if vram_locked p.stat_mode
    then some 0xff
    else get_elem? p.cgb_bg_palettes (bit_and p.bcps 0x3f)

-- The index after a write: it moves on by one when bit 7 asks for that.
abbrev pub next_index : ℕ → ℕ
next_index index =
    if bit_and index 0x80 != 0
    then bit_or (bit_and index 0x80) (bit_and (bit_and index 0x3f + 1) 0x3f)
    else index

unfoldable pub write_bcpd : ℕ → Ppu → Option Ppu
write_bcpd byte p =
    if not p.cgb
    then some p
    else if vram_locked p.stat_mode
    then some p
    else (set? p.cgb_bg_palettes (bit_and p.bcps 0x3f) byte
        >>= (λ palettes. some (record p { cgb_bg_palettes = palettes; bcps = next_index p.bcps })))

unfoldable pub read_ocps : Ppu → ℕ
read_ocps p = if is_dmg p.comp_mode then 0xff else bit_or p.ocps 0x40

unfoldable pub write_ocps : ℕ → Ppu → Ppu
write_ocps byte p = if not p.cgb then p else record p { ocps = bit_and byte 0xbf }

unfoldable pub read_ocpd : Ppu → Option ℕ
read_ocpd p =
    if is_dmg p.comp_mode
    then some 0xff
    else if vram_locked p.stat_mode
    then some 0xff
    else get_elem? p.cgb_ob_palettes (bit_and p.ocps 0x3f)

unfoldable pub write_ocpd : ℕ → Ppu → Option Ppu
write_ocpd byte p =
    if not p.cgb
    then some p
    else if vram_locked p.stat_mode
    then some p
    else (set? p.cgb_ob_palettes (bit_and p.ocps 0x3f) byte
        >>= (λ palettes. some (record p { cgb_ob_palettes = palettes; ocps = next_index p.ocps })))

unfoldable pub read_opri : Ppu → ℕ
read_opri p = if not p.cgb then 0xff else bit_or (of_bool p.opri) 0xfe

unfoldable pub write_opri : ℕ → Ppu → Ppu
write_opri byte p = if not p.cgb then p else record p { opri = bit_and byte 1 != 0 }
