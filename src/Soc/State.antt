-- ===== src/Soc/State.antt =====
-- The state of the SOC. `cycles` stands beside the parts, which everything else works on.
use zenith_gb.Base.{
  ℕ, Bool, true, false, List, Option, none, some, replicate, between, ◌>>=◌, if◌then◌else◌,
}
use zenith_gb.Cartridge.{Cartridge}
use zenith_gb.Gameboy.{CompatibilityMode, mode_cgb, mode_cgb_dmg, mode_dmg}
use zenith_gb.Util.{Buttons}
use zenith_gb.Mbc.{MbcRomOnly, SaveFile, rom_only_load, rom_only_read}
use zenith_gb.Mbc.Mbc1
use zenith_gb.Mbc.Mbc2
use zenith_gb.Mbc.Mbc3
use zenith_gb.Mbc.Mbc5
use zenith_gb.Apu.Unit.{Apu}
use zenith_gb.Apu.Unit
use zenith_gb.Timer.{Timer}
use zenith_gb.Timer
use zenith_gb.Ppu.{Ppu}
use zenith_gb.Ppu
use zenith_gb.Serial.{Serial}
use zenith_gb.Serial

-- `Box<dyn MBC>`: the controllers that `SOC::load` chooses from.
pub data Controller : Type 0 where
  rom_only : MbcRomOnly → Controller
  mbc1 : Mbc1.Mbc1 → Controller
  mbc2 : Mbc2.Mbc2 → Controller
  mbc3 : Mbc3.Mbc3 → Controller
  mbc5 : Mbc5.Mbc5 → Controller

unfoldable pub mbc_read : Controller → ℕ → Option ℕ
mbc_read (rom_only m) address = rom_only_read m address
mbc_read (mbc1 m) address = Mbc1.read m address
mbc_read (mbc2 m) address = Mbc2.read m address
mbc_read (mbc3 m) address = Mbc3.read m address
mbc_read (mbc5 m) address = Mbc5.read m address

pub mbc_write : Controller → ℕ → ℕ → Option Controller
mbc_write (rom_only m) address byte = some (rom_only m)
mbc_write (mbc1 m) address byte = Mbc1.write m address byte >>= (λ n. some (mbc1 n))
mbc_write (mbc2 m) address byte = Mbc2.write m address byte >>= (λ n. some (mbc2 n))
mbc_write (mbc3 m) address byte = Mbc3.write m address byte >>= (λ n. some (mbc3 n))
mbc_write (mbc5 m) address byte = Mbc5.write m address byte >>= (λ n. some (mbc5 n))

-- Only the clock of the MBC3 does anything.
unfoldable pub mbc_clock : Controller → Controller
mbc_clock (mbc3 m) = mbc3 (Mbc3.clock m)
mbc_clock c = c

pub record DmaTransfer : Type 0 where
  pub src : ℕ
  pub count : ℕ
  pub cycles : ℕ

pub record Hdma : Type 0 where
  pub src : ℕ
  pub dst : ℕ
  pub initial : ℕ
  pub count : ℕ
  pub hblank_dma : Bool

-- The fields of `SOC` but for `cycles` and the channels to the frontend; `cgb` and `comp_mode` are
-- those of its `ctx`.
pub record Parts : Type 0 where
  pub apu : Apu
  pub timer : Timer
  pub ppu : Ppu
  pub serial : Serial
  pub wram : List ℕ
  pub hram : List ℕ
  pub svbk : ℕ
  pub p1_select_buttons : Bool
  pub p1_select_dpad : Bool
  pub if_flags : ℕ
  pub ie_flags : ℕ
  pub dma : ℕ
  pub mbc : Controller
  pub dma_request : Option ℕ
  pub active_dma : Option DmaTransfer
  pub buttons : Buttons
  pub event_bits : ℕ
  pub cgb : Bool
  pub comp_mode : CompatibilityMode
  pub hdma_src : ℕ
  pub hdma_dst : ℕ
  pub hdma : Option Hdma
  pub hwr_ff72 : ℕ
  pub hwr_ff73 : ℕ
  pub hwr_ff74 : ℕ
  pub hwr_ff75 : ℕ
  pub cpu_halted : Bool
  pub cpu_speed : Bool
  pub cpu_speed_armed : Bool

pub record Soc : Type 0 where
  pub cycles : ℕ
  pub parts : Parts

-- Which controller a cartridge has, by its type.
pub load_controller : Cartridge → Option SaveFile → Option Controller
load_controller c file =
    if between 0x1 0x3 c.header.cart_type
    then Mbc1.load Mbc1.new c file >>= (λ m. some (mbc1 m))
    else if between 0x5 0x6 c.header.cart_type
    then Mbc2.load Mbc2.new c file >>= (λ m. some (mbc2 m))
    else if between 0xf 0x13 c.header.cart_type
    then Mbc3.load Mbc3.new c file >>= (λ m. some (mbc3 m))
    else if between 0x19 0x1e c.header.cart_type
    then Mbc5.load Mbc5.new c file >>= (λ m. some (mbc5 m))
    else (rom_only_load c.bytes >>= (λ m. some (rom_only m)))

abbrev not_dmg : CompatibilityMode → Bool
not_dmg mode_cgb = true
not_dmg mode_cgb_dmg = true
not_dmg mode_dmg = false

-- The state that `new` sets up around a controller.
abbrev pub around : Bool → CompatibilityMode → Controller → Soc
around cgb comp_mode mbc = record {
  cycles = 0;
  parts = record {
    apu = Unit.new cgb;
    timer = Timer.new;
    ppu = Ppu.new cgb comp_mode;
    serial = Serial.new;
    wram = replicate 0x12000 0;
    hram = replicate 0x7f 0;
    svbk = 0;
    p1_select_buttons = not_dmg comp_mode;
    p1_select_dpad = not_dmg comp_mode;
    if_flags = 0x1;
    ie_flags = 0;
    dma = 0xff;
    mbc = mbc;
    dma_request = none;
    active_dma = none;
    buttons = record {
      up = false;
      right = false;
      left = false;
      down = false;
      a = false;
      b = false;
      start = false;
      select = false;
    };
    event_bits = 0;
    cgb = cgb;
    comp_mode = comp_mode;
    hdma_src = 0;
    hdma_dst = 0;
    hdma = none;
    hwr_ff72 = 0;
    hwr_ff73 = 0;
    hwr_ff74 = 0xff;
    hwr_ff75 = 0;
    cpu_halted = false;
    cpu_speed = false;
    cpu_speed_armed = false;
  };
}

pub new : Bool → CompatibilityMode → Cartridge → Option SaveFile → Option Soc
new cgb comp_mode c file = load_controller c file >>= (λ mbc. some (around cgb comp_mode mbc))
