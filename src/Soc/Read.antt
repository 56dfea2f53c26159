-- ===== src/Soc/Read.antt =====
-- What `clock_read` reads after the clock: the memory map and the hardware registers.
use zenith_gb.Base.{
  ℕ, ◌+◌, ◌-◌, ◌*◌, ◌/◌, Bool, not, List, [], ◌∷◌, Option, none, some, ◌==◌, leb, bit_and, bit_or,
  of_bool, ◌<<<◌, get_elem?, checked_sub, between, ◌>>=◌, if◌then◌else◌,
}
use zenith_gb.Util.{calc_button_bits}
use zenith_gb.Timer.{read_div, read_tima, read_tma, read_tac}
use zenith_gb.Serial.{read_sc}
use zenith_gb.Apu.Unit.Map.{
  Register, nr10, nr11, nr12, nr13, nr14, nr21, nr22, nr23, nr24, nr30, nr31, nr32, nr33, nr34,
  nr41, nr42, nr43, nr44, nr50, nr51, nr52, wave_ram,
}
use zenith_gb.Apu.Unit.Map
use zenith_gb.Ppu.{read_lcdc, read_stat}
use zenith_gb.Ppu.Memory.{
  is_dmg, read_oam, read_vram, read_vbk, read_bcps, read_bcpd, read_ocps, read_ocpd, read_opri,
}
use zenith_gb.Soc.State.{Parts, Hdma, mbc_read}

abbrev sound_map : List (ℕ × Register)
sound_map =
    (0xff10, nr10)
    ∷ (0xff11, nr11)
    ∷ (0xff12, nr12)
    ∷ (0xff13, nr13)
    ∷ (0xff14, nr14)
    ∷ (0xff16, nr21)
    ∷ (0xff17, nr22)
    ∷ (0xff18, nr23)
    ∷ (0xff19, nr24)
    ∷ (0xff1a, nr30)
    ∷ (0xff1b, nr31)
    ∷ (0xff1c, nr32)
    ∷ (0xff1d, nr33)
    ∷ (0xff1e, nr34)
    ∷ (0xff20, nr41)
    ∷ (0xff21, nr42)
    ∷ (0xff22, nr43)
    ∷ (0xff23, nr44)
    ∷ (0xff24, nr50)
    ∷ (0xff25, nr51)
    ∷ (0xff26, nr52)
    ∷ []

abbrev find_register : ℕ → List (ℕ × Register) → Option Register
find_register address [] = none
find_register address ((a, r) ∷ rest) =
    let later = find_register address rest in if address == a then some r else later

-- The register of the sound unit at an address.
pub sound_register : ℕ → Option Register
sound_register address =
    if between 0xff30 0xff3f address
    then some (wave_ram address)
    else find_register address sound_map

-- The blocks that are left of a transfer at the horizontal blank.
pub read_hdma5 : Option Hdma → Option ℕ
read_hdma5 none = some 0xff
read_hdma5 (some h) =
    if h.hblank_dma
    then (checked_sub h.initial h.count
        >>= (λ left. checked_sub (left / 0x10) 1 >>= (λ blocks. some (bit_and blocks 0x7f))))
    else some 0xff

-- The place of an address of the switchable bank.
unfoldable pub wram_address : ℕ → ℕ → ℕ
wram_address svbk address = address - 0xc000 + svbk * 0x2000

pub read_register : ℕ → Parts → Option ℕ
read_register address p =
    if address == 0xff00
    then some (
        bit_or
          (bit_or
            (bit_or (calc_button_bits p.buttons (not p.p1_select_buttons) (not p.p1_select_dpad))
              (of_bool p.p1_select_buttons <<< 5))
            (of_bool p.p1_select_dpad <<< 4))
          0xc0)
    else if address == 0xff01
    then some p.serial.sb
    else if address == 0xff02
    then some (read_sc p.serial)
    else if address == 0xff04
    then some (read_div p.timer)
    else if address == 0xff05
    then some (read_tima p.timer)
    else if address == 0xff06
    then some (read_tma p.timer)
    else if address == 0xff07
    then some (read_tac p.timer)
    else if address == 0xff0f
    then some (bit_or p.if_flags 0xe0)
    else if address == 0xff40
    then some (read_lcdc p.ppu)
    else if address == 0xff41
    then some (read_stat p.ppu)
    else if address == 0xff44
    then some p.ppu.ly
    else if address == 0xff42
    then some p.ppu.scy
    else if address == 0xff43
    then some p.ppu.scx
    else if address == 0xff45
    then some p.ppu.lyc
    else if address == 0xff46
    then some p.dma
    else if address == 0xff47
    then some p.ppu.bgp
    else if address == 0xff48
    then some p.ppu.obp0
    else if address == 0xff49
    then some p.ppu.obp1
    else if address == 0xff4a
    then some p.ppu.wy
    else if address == 0xff4b
    then some p.ppu.wx
    else if address == 0xff4d
    then some
        (if p.cgb then bit_or (of_bool p.cpu_speed_armed) (of_bool p.cpu_speed <<< 7) else 0xff)
    else if address == 0xff4f
    then some (read_vbk p.ppu)
    else if address == 0xff55
    then read_hdma5 p.hdma
    else if address == 0xff68
    then some (read_bcps p.ppu)
    else if address == 0xff69
    then read_bcpd p.ppu
    else if address == 0xff6a
    then some (read_ocps p.ppu)
    else if address == 0xff6b
    then read_ocpd p.ppu
    else if address == 0xff7c
    then some (read_opri p.ppu)
    else if address == 0xff70
    then some (if p.cgb then p.svbk else 0xff)
    else if address == 0xff72
    then some (if is_dmg p.comp_mode then 0xff else p.hwr_ff72)
    else if address == 0xff73
    then some (if is_dmg p.comp_mode then 0xff else p.hwr_ff73)
    else if address == 0xff74
    then some (if is_dmg p.comp_mode then 0xff else p.hwr_ff74)
    else if address == 0xff75
    then some (if is_dmg p.comp_mode then 0xff else bit_or p.hwr_ff75 0x8f)
    else if address == 0xff76
    then some (if is_dmg p.comp_mode then 0xff else 0)
    else if address == 0xff77
    then some (if is_dmg p.comp_mode then 0xff else 0)
    else some 0xff

pub read_hardware : ℕ → Parts → Option ℕ
read_hardware address p = elim (sound_register address) [
  | some r ↦ Map.read p.apu r
  | none ↦ read_register address p
]

-- `active_dma` is whether a transfer to the object memory ran before the clock.
unfoldable pub read_mapped : (active_dma : Bool) → ℕ → Parts → Option ℕ
read_mapped active_dma address p =
    if leb address 0x7fff
    then mbc_read p.mbc address
    else if leb address 0x9fff
    then read_vram address p.ppu
    else if leb address 0xbfff
    then mbc_read p.mbc address
    else if leb address 0xcfff
    then get_elem? p.wram (address - 0xc000)
    else if leb address 0xdfff
    then get_elem? p.wram (wram_address p.svbk address)
    else if leb address 0xfdff
    then get_elem? p.wram (address - 0xe000)
    else if leb address 0xfe9f
    then (if active_dma then some 0xff else read_oam address p.ppu)
    else if leb address 0xfeff
    then some 0
    else if leb address 0xff7f
    then read_hardware address p
    else if leb address 0xfffe
    then get_elem? p.hram (address - 0xff80)
    else some p.ie_flags
