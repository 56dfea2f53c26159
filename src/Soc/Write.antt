-- ===== src/Soc/Write.antt =====
-- What `clock_write` writes after the clock: the memory map and the hardware registers, but for those
-- of the timer, which are written during it.
use zenith_gb.Base.{
  ℕ, ◌+◌, ◌-◌, ◌*◌, Bool, not, Option, none, some, ◌==◌, ◌!=◌, leb, bit_and, set?, ◌>>=◌,
  if◌then◌else◌,
}
use zenith_gb.Util.{set_high, set_low}
use zenith_gb.Serial.{write_sb, write_sc}
use zenith_gb.Apu.Unit.Map
use zenith_gb.Ppu.{Ppu, write_lcdc, write_stat, write_lyc}
use zenith_gb.Ppu.Memory.{
  write_oam, write_vram, write_vbk, write_bcps, write_bcpd, write_ocps, write_ocpd, write_opri,
}
use zenith_gb.Soc.State.{Parts, mbc_write}
use zenith_gb.Soc.Read.{sound_register, wram_address}

abbrev pub on_ppu : Parts → Option Ppu → Option Parts
on_ppu p ppu = ppu >>= (λ q. some (record p { ppu = q }))

abbrev pub on_wram : Parts → ℕ → ℕ → Option Parts
on_wram p i byte = set? p.wram i byte >>= (λ wram. some (record p { wram = wram }))

abbrev pub on_mbc : Parts → ℕ → ℕ → Option Parts
on_mbc p address byte = mbc_write p.mbc address byte >>= (λ mbc. some (record p { mbc = mbc }))

-- A transfer to the video memory is asked for.
pub write_hdma5 : ℕ → Parts → Parts
write_hdma5 byte p = if not p.cgb then p else record p {
  hdma = some (record {
    dst = bit_and p.hdma_dst 0x1ff0;
    src = bit_and p.hdma_src 0xfff0;
    initial = (bit_and byte 0x7f + 1) * 0x10;
    count = 0;
    hblank_dma = bit_and byte 0x80 != 0;
  });
}

pub write_register : (address byte : ℕ) → Parts → Option Parts
write_register address byte p =
    if address == 0xff00
    then some (record p {
      p1_select_buttons = bit_and byte 0x20 != 0;
      p1_select_dpad = bit_and byte 0x10 != 0;
    })
    else if address == 0xff01
    then some (record p { serial = write_sb p.serial byte })
    else if address == 0xff02
    then some (record p { serial = write_sc p.serial byte })
    else if address == 0xff0f
    then some (record p { if_flags = bit_and byte 0x1f })
    else if address == 0xff46
    then some (record p { dma_request = some byte; dma = byte })
    else if address == 0xff40
    then some (record p { ppu = write_lcdc byte p.ppu })
    else if address == 0xff41
    then some (record p { ppu = write_stat byte p.ppu })
    else if address == 0xff44
    then some p
    else if address == 0xff42
    then some (record p { ppu = record p.ppu { scy = byte } })
    else if address == 0xff43
    then some (record p { ppu = record p.ppu { scx = byte } })
    else if address == 0xff45
    then some (record p { ppu = write_lyc byte p.ppu })
    else if address == 0xff47
    then some (record p { ppu = record p.ppu { bgp = byte } })
    else if address == 0xff48
    then some (record p { ppu = record p.ppu { obp0 = byte } })
    else if address == 0xff49
    then some (record p { ppu = record p.ppu { obp1 = byte } })
    else if address == 0xff4a
    then some (record p { ppu = record p.ppu { wy = byte } })
    else if address == 0xff4b
    then some (record p { ppu = record p.ppu { wx = byte } })
    else if address == 0xff4d
    then some (if p.cgb then record p { cpu_speed_armed = bit_and byte 1 != 0 } else p)
    else if address == 0xff4f
    then some (record p { ppu = write_vbk byte p.ppu })
    else if address == 0xff51
    then some (record p { hdma_src = set_high p.hdma_src byte })
    else if address == 0xff52
    then some (record p { hdma_src = set_low p.hdma_src byte })
    else if address == 0xff53
    then some (record p { hdma_dst = set_high p.hdma_dst byte })
    else if address == 0xff54
    then some (record p { hdma_dst = set_low p.hdma_dst byte })
    else if address == 0xff55
    then some (write_hdma5 byte p)
    else if address == 0xff68
    then some (record p { ppu = write_bcps byte p.ppu })
    else if address == 0xff69
    then on_ppu p (write_bcpd byte p.ppu)
    else if address == 0xff6a
    then some (record p { ppu = write_ocps byte p.ppu })
    else if address == 0xff6b
    then on_ppu p (write_ocpd byte p.ppu)
    else if address == 0xff7c
    then some (record p { ppu = write_opri byte p.ppu })
    else if address == 0xff70
    then some (if p.cgb then record p { svbk = bit_and byte 7 } else p)
    else if address == 0xff72
    then some (if p.cgb then record p { hwr_ff72 = byte } else p)
    else if address == 0xff73
    then some (if p.cgb then record p { hwr_ff73 = byte } else p)
    else if address == 0xff74
    then some (if p.cgb then record p { hwr_ff74 = byte } else p)
    else if address == 0xff75
    then some (if p.cgb then record p { hwr_ff75 = bit_and byte 0x70 } else p)
    else some p

pub write_hardware : (address byte : ℕ) → Parts → Option Parts
write_hardware address byte p = elim (sound_register address) [
  | some r ↦ Map.write p.apu r byte >>= (λ apu. some (record p { apu = apu }))
  | none ↦ write_register address byte p
]

unfoldable pub write_mapped : (active_dma : Bool) → (address byte : ℕ) → Parts → Option Parts
write_mapped active_dma address byte p =
    if leb address 0x7fff
    then on_mbc p address byte
    else if leb address 0x9fff
    then on_ppu p (write_vram address byte p.ppu)
    else if leb address 0xbfff
    then on_mbc p address byte
    else if leb address 0xcfff
    then on_wram p (address - 0xc000) byte
    else if leb address 0xdfff
    then on_wram p (wram_address p.svbk address) byte
    else if leb address 0xfdff
    then on_wram p (address - 0xe000) byte
    else if leb address 0xfe9f
    then (if active_dma then some p else on_ppu p (write_oam address byte p.ppu))
    else if leb address 0xfeff
    then some p
    else if leb address 0xff7f
    then write_hardware address byte p
    else if leb address 0xfffe
    then (set? p.hram (address - 0xff80) byte >>= (λ hram. some (record p { hram = hram })))
    else some (record p { ie_flags = byte })
