-- ===== src/Soc/Nop.antt =====
-- The machine runs: a `NOP` in a cartridge of ROM alone, with all parts clocked.
use zenith_gb.Base.{◌≡◌}
use zenith_gb.Mbc.{MbcRomOnly}
use zenith_gb.Cpu.Registers.{Cpu}
use zenith_gb.Soc.State.{Controller, rom_only, Soc}

-- The cartridge is this ROM.
abbrev pub IsRom : MbcRomOnly → Controller → Type 0
IsRom m c = c ≡ rom_only m
