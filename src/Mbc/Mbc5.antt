-- ===== src/Mbc/Mbc5.antt =====
-- src/mbc/mbc5.rs: 9 bits of ROM bank in two registers, and 4 bits of RAM bank.
pub mod Bounds
pub mod Banking
mod Tests
use Prim.Native.String.{String}
use zenith_gb.Base.{
  ℕ, ◌+◌, ◌-◌, ◌*◌, ◌%◌, Bool, true, false, ◌&&◌, ◌||◌, List, [], Option, none, some, bit_and,
  bit_or, ◌<<<◌, ◌==◌, leb, between, length, get_elem?, set?, take, replicate, ◌>>=◌, if◌then◌else◌,
}
use zenith_gb.Cartridge.{Cartridge}
use zenith_gb.Mbc.{Banks, ram_banks, rom_banks, SaveFile, load_save, save_to}

pub record Mbc5 : Type 0 where
  pub rom : List ℕ
  pub ram : List ℕ
  pub rom_bank : ℕ
  pub ram_bank : ℕ
  pub ram_enabled : Bool
  pub num_rom_banks : ℕ
  pub num_ram_banks : ℕ
  pub save_path : Option String

pub new : Mbc5
new = record {
  rom = [];
  ram = [];
  rom_bank = 1;
  ram_bank = 0;
  ram_enabled = false;
  num_rom_banks = 1;
  num_ram_banks = 1;
  save_path = none;
}

pub load : Mbc5 → Cartridge → Option SaveFile → Option Mbc5
load m cartridge file = do
  banks ← rom_banks cartridge.header.rom_size
  rams ← ram_banks cartridge.header.ram_size
  assert ← if banks.size_bytes == length cartridge.bytes then some true else none
  saved ←
      load_save (cartridge.header.cart_type == 0x1b || cartridge.header.cart_type == 0x1e) file
        (replicate rams.size_bytes 0)
  some (record m {
    rom = take banks.size_bytes cartridge.bytes;
    num_rom_banks = banks.num_banks;
    num_ram_banks = rams.num_banks;
    ram = saved.0;
    save_path = elim saved.1 [ none ↦ m.save_path | some path ↦ some path ];
  })

pub read : Mbc5 → ℕ → Option ℕ
read m address =
    if leb address 0x3fff
    then get_elem? m.rom address
    else if leb address 0x7fff
    then get_elem? m.rom (0x4000 * m.rom_bank + (address - 0x4000))
    else if between 0xa000 0xbfff address
    then if m.ram_enabled
      then get_elem? m.ram (0x2000 * m.ram_bank + (address - 0xa000))
      else some 0xff
    else none

-- `a % b`, a panic for no banks.
abbrev pub bank_mod : ℕ → ℕ → Option ℕ
bank_mod a num_banks = if num_banks == 0 then none else some (a % num_banks)

-- The part of `write` below 0x6000, which sets a register.
pub write_register : Mbc5 → ℕ → ℕ → Option Mbc5
write_register m address byte =
    if leb address 0x1fff
    then some (record m { ram_enabled = bit_and byte 0xf == 0xa })
    else if leb address 0x2fff
    then (bank_mod (bit_or (bit_and m.rom_bank 0x100) byte) m.num_rom_banks >>= λ b.
        some (record m { rom_bank = b }))
    else if leb address 0x3fff
    then (bank_mod (bit_or (bit_and m.rom_bank 0xff) (bit_and byte 1 <<< 8)) m.num_rom_banks
        >>= λ b. some (record m { rom_bank = b }))
    else (bank_mod (bit_and byte 0xf) m.num_ram_banks >>= λ b. some (record m { ram_bank = b }))

pub write : Mbc5 → ℕ → ℕ → Option Mbc5
write m address byte =
    if leb address 0x5fff
    then write_register m address byte
    else if between 0xa000 0xbfff address && m.ram_enabled
    then (set? m.ram (0x2000 * m.ram_bank + (address - 0xa000)) byte >>= λ ram.
        some (record m { ram = ram }))
    else some m

pub save : Mbc5 → Option (String × List ℕ)
save m = save_to m.save_path m.ram
