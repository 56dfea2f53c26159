-- ===== src/Mbc/Mbc3.antt =====
-- src/mbc/mbc3.rs: 7 bits of ROM bank, RAM banks or a real-time clock behind the RAM range.
pub mod Rtc
pub mod Clock
pub mod Latch
mod Tests
use Prim.Native.String.{String}
use zenith_gb.Base.{
  ℕ, zero, suc, ◌+◌, ◌-◌, ◌*◌, ◌%◌, ◌/◌, ◌^◌, Bool, true, false, ◌&&◌, ◌||◌, List, [], ◌∷◌, Option,
  none, some, bit_and, bit_or, ◌<<<◌, ◌>>>◌, ◌==◌, ◌!=◌, leb, between, length, get_elem?, set?,
  take, replicate, ◌>>=◌, if◌then◌else◌, u8, u16, wrapping_sub,
}
use zenith_gb.Cartridge.{Cartridge}
use zenith_gb.Mbc.{Banks, ram_banks, rom_banks, SaveFile, load_save, save_to}

abbrev pub gb_clocks_per_second : ℕ
gb_clocks_per_second = 4194304 / 4

-- The array of five registers, in its order: seconds, minutes, hours, day low, day high.
pub record Registers : Type 0 where
  pub rtc_s : ℕ
  pub rtc_m : ℕ
  pub rtc_h : ℕ
  pub rtc_dl : ℕ
  pub rtc_dh : ℕ

-- `registers[i]` and `registers[i] = v`, which panic from 5 on.
abbrev pub get_register : Registers → ℕ → Option ℕ
get_register r zero = some r.rtc_s
get_register r (suc zero) = some r.rtc_m
get_register r (suc (suc zero)) = some r.rtc_h
get_register r (suc (suc (suc zero))) = some r.rtc_dl
get_register r (suc (suc (suc (suc zero)))) = some r.rtc_dh
get_register r _ = none

abbrev pub set_register : Registers → ℕ → ℕ → Option Registers
set_register r zero v = some (record r { rtc_s = v })
set_register r (suc zero) v = some (record r { rtc_m = v })
set_register r (suc (suc zero)) v = some (record r { rtc_h = v })
set_register r (suc (suc (suc zero))) v = some (record r { rtc_dl = v })
set_register r (suc (suc (suc (suc zero)))) v = some (record r { rtc_dh = v })
set_register r _ v = none

pub record Mbc3 : Type 0 where
  pub rom : List ℕ
  pub ram : List ℕ
  pub rom_bank : ℕ
  pub ram_bank : Option ℕ
  pub ram_enabled : Bool
  pub num_rom_banks : ℕ
  pub num_ram_banks : ℕ
  pub has_rtc : Bool
  pub rtc_registers : Registers
  pub rtc_latch : Option Registers
  pub rtc_select : Option ℕ
  pub rtc_latch_next : Bool
  pub rtc_cycles_left : ℕ
  pub save_path : Option String

pub new : Mbc3
new = record {
  rom = [];
  ram = [];
  rom_bank = 1;
  ram_bank = none;
  ram_enabled = false;
  num_rom_banks = 1;
  num_ram_banks = 1;
  has_rtc = false;
  rtc_registers = record { rtc_s = 0; rtc_m = 0; rtc_h = 0; rtc_dl = 0; rtc_dh = 0 };
  rtc_latch = none;
  rtc_select = none;
  rtc_latch_next = false;
  rtc_cycles_left = gb_clocks_per_second;
  save_path = none;
}

abbrev pub rtc_register_mask : ℕ → Option ℕ
rtc_register_mask zero = some 0b111111
rtc_register_mask (suc zero) = some 0b111111
rtc_register_mask (suc (suc zero)) = some 0b11111
rtc_register_mask (suc (suc (suc zero))) = some 0b11111111
rtc_register_mask (suc (suc (suc (suc zero)))) = some 0b11000001
rtc_register_mask _ = none

-- The arm of `rtc_inc` for the day counter.
pub rtc_inc_day : Registers → Registers
rtc_inc_day r =
    let day_counter = u16 (bit_or (r.rtc_dh <<< 8) r.rtc_dl + 1) in
    let day_counter =
      if bit_and day_counter (1 <<< 9) != 0
      then bit_or (1 <<< 15) (bit_and day_counter (1 <<< 14))
      else day_counter in
    record r { rtc_dh = day_counter >>> 8; rtc_dl = bit_and day_counter 0xff }

-- The arm of `rtc_inc` for a register with a rollover: its new value, and whether the next one is
-- incremented.
abbrev pub rtc_inc_reg : (mask rollover reg : ℕ) → ℕ × Bool
rtc_inc_reg mask rollover reg =
    let next = u8 (reg + 1) in
    if bit_and next mask == 0
    then (0, false)
    else if rollover == next
    then (0, true)
    else (next, false)

-- `rtc_inc`: each recursive call is for the next register, down to the day counter.
pub rtc_inc_h : Registers → Registers
rtc_inc_h r =
    let next = rtc_inc_reg 0b11111 24 r.rtc_h in
    let r' : Registers = record r { rtc_h = next.0 } in if next.1 then rtc_inc_day r' else r'

pub rtc_inc_m : Registers → Registers
rtc_inc_m r =
    let next = rtc_inc_reg 0b111111 60 r.rtc_m in
    let r' : Registers = record r { rtc_m = next.0 } in if next.1 then rtc_inc_h r' else r'

pub rtc_inc : Registers → Registers
rtc_inc r =
    let next = rtc_inc_reg 0b111111 60 r.rtc_s in
    let r' : Registers = record r { rtc_s = next.0 } in if next.1 then rtc_inc_m r' else r'

pub load : Mbc3 → Cartridge → Option SaveFile → Option Mbc3
load m cartridge file = do
  banks ← rom_banks cartridge.header.rom_size
  rams ← ram_banks cartridge.header.ram_size
  assert ← if banks.size_bytes == length cartridge.bytes then some true else none
  let cart_type = cartridge.header.cart_type
  saved ← load_save (cart_type == 0x10 || cart_type == 0x13) file (replicate rams.size_bytes 0)
  some (record m {
    rom = take banks.size_bytes cartridge.bytes;
    num_rom_banks = banks.num_banks;
    num_ram_banks = rams.num_banks;
    has_rtc = cart_type == 0xf || cart_type == 0x10;
    ram = saved.0;
    save_path = elim saved.1 [ none ↦ m.save_path | some path ↦ some path ];
  })

-- The read of an enabled RAM range: the latched register if one is selected, else the RAM bank.
abbrev pub read_selected :
    List ℕ
    → (rtc_select : Option ℕ) → (rtc_latch : Option Registers) → (ram_bank : Option ℕ) → ℕ
    → Option ℕ
read_selected ram (some select) (some latch) bank offset = get_register latch select
read_selected ram (some select) none bank offset = some 0xff
read_selected ram none latch (some bank) offset = get_elem? ram (0x2000 * bank + offset)
read_selected ram none latch none offset = some 0xff

pub read : Mbc3 → ℕ → Option ℕ
read m address =
    if leb address 0x3fff
    then get_elem? m.rom address
    else if leb address 0x7fff
    then get_elem? m.rom (0x4000 * m.rom_bank + (address - 0x4000))
    else if between 0xa000 0xbfff address
    then if m.ram_enabled
      then read_selected m.ram m.rtc_select m.rtc_latch m.ram_bank (address - 0xa000)
      else some 0xff
    else none

-- `0x2000..=0x3FFF`. A remainder by no banks is a panic.
abbrev pub write_rom_bank : Mbc3 → ℕ → Option Mbc3
write_rom_bank m byte =
    if bit_and byte 0x7f == 0
    then some (record m { rom_bank = 1 })
    else if m.num_rom_banks == 0
    then none
    else some (record m { rom_bank = bit_and byte 0x7f % m.num_rom_banks })

-- `0x4000..=0x5FFF`.
abbrev pub write_select : Mbc3 → ℕ → Option Mbc3
write_select m byte =
    if leb byte 3
    then if m.num_ram_banks == 0
      then none
      else some (record m { ram_bank = some (byte % m.num_ram_banks); rtc_select = none })
    else if between 8 0xc byte && m.has_rtc
    then some (record m { ram_bank = none; rtc_select = some (byte - 8) })
    else some m

-- `0x6000..=0x7FFF`: a 0 followed by a 1 latches the clock.
abbrev pub write_latch : Mbc3 → ℕ → Mbc3
write_latch m byte =
    if m.has_rtc
    then record m {
      rtc_latch = if m.rtc_latch_next && byte == 1 then some m.rtc_registers else m.rtc_latch;
      rtc_latch_next = byte == 0;
    }
    else m

-- The write of an enabled RAM range to the selected register, and to its latched copy.
abbrev pub write_register : Mbc3 → (select : ℕ) → ℕ → Option Mbc3
write_register m select byte = do
  mask ← rtc_register_mask select
  registers ← set_register m.rtc_registers select (bit_and byte mask)
  latch ← elim m.rtc_latch [
    | none ↦ some none
    | some latch ↦ set_register latch select (bit_and byte mask) >>= λ latch'. some (some latch')
  ]
  some (record m {
    rtc_cycles_left = if select == 0 then gb_clocks_per_second else m.rtc_cycles_left;
    rtc_registers = registers;
    rtc_latch = latch;
  })

-- The write of an enabled RAM range.
abbrev pub write_selected :
    Mbc3 → (rtc_select ram_bank : Option ℕ) → (offset byte : ℕ) → Option Mbc3
write_selected m (some select) bank offset byte = write_register m select byte
write_selected m none (some bank) offset byte =
    set? m.ram (0x2000 * bank + offset) byte >>= λ ram. some (record m { ram = ram })
write_selected m none none offset byte = some m

pub write : Mbc3 → ℕ → ℕ → Option Mbc3
write m address byte =
    if leb address 0x1fff
    then some (record m { ram_enabled = bit_and byte 0xf == 0xa })
    else if leb address 0x3fff
    then write_rom_bank m byte
    else if leb address 0x5fff
    then write_select m byte
    else if leb address 0x7fff
    then some (write_latch m byte)
    else if between 0xa000 0xbfff address && m.ram_enabled
    then write_selected m m.rtc_select m.ram_bank (address - 0xa000) byte
    else some m

pub clock : Mbc3 → Mbc3
clock m =
    if m.has_rtc && bit_and m.rtc_registers.rtc_dh (1 <<< 6) == 0
    then if leb m.rtc_cycles_left 1
      then record m {
        rtc_registers = rtc_inc m.rtc_registers;
        rtc_cycles_left = gb_clocks_per_second - (1 - m.rtc_cycles_left);
      }
      else record m { rtc_cycles_left = m.rtc_cycles_left - 1 }
    else m

pub save : Mbc3 → Option (String × List ℕ)
save m = save_to m.save_path m.ram
