-- ===== src/Gameboy.antt =====
-- src/gameboy/gameboy.rs: what a cartridge is run as, which the processor and the picture unit read.

pub data CompatibilityMode : Type 0 where
  mode_cgb : CompatibilityMode
  mode_cgb_dmg : CompatibilityMode
  mode_dmg : CompatibilityMode
