-- ===== src/Mbc/Mbc2.antt =====
-- src/mbc/mbc2.rs: 4 bits of ROM bank, and 512 half-bytes of RAM.
pub mod Bounds
pub mod Ram
mod Tests
use Prim.Native.String.{String}
use zenith_gb.Base.{
  ℕ, ◌+◌, ◌-◌, ◌*◌, ◌%◌, Bool, true, false, ◌&&◌, List, [], Option, none, some, bit_and, bit_or,
  ◌==◌, ◌!=◌, leb, between, length, get_elem?, set?, replicate, ◌>>=◌, if◌then◌else◌,
}
use zenith_gb.Cartridge.{Cartridge}
use zenith_gb.Mbc.{Banks, rom_banks, SaveFile, load_save, save_to}

pub record Mbc2 : Type 0 where
  pub rom : List ℕ
  pub ram : List ℕ
  pub rom_bank : ℕ
  pub num_rom_banks : ℕ
  pub ram_enabled : Bool
  pub save_path : Option String

pub new : Mbc2
new = record {
  rom = [];
  ram = [];
  rom_bank = 1;
  num_rom_banks = 1;
  ram_enabled = false;
  save_path = none;
}

-- The file is as long as the ROM by the assertion, so the copy into a ROM of zeros is the file.
pub load : Mbc2 → Cartridge → Option SaveFile → Option Mbc2
load m cartridge file = do
  banks ← rom_banks cartridge.header.rom_size
  assert ← if length cartridge.bytes == banks.size_bytes then some true else none
  saved ← load_save (cartridge.header.cart_type == 6) file (replicate 0x200 0)
  some (record m {
    rom = cartridge.bytes;
    num_rom_banks = banks.num_banks;
    ram = saved.0;
    save_path = elim saved.1 [ none ↦ m.save_path | some path ↦ some path ];
  })

pub read : Mbc2 → ℕ → Option ℕ
read m address =
    if leb address 0x3fff
    then get_elem? m.rom address
    else if leb address 0x7fff
    then get_elem? m.rom (0x4000 * m.rom_bank + (address - 0x4000))
    else if between 0xa000 0xbfff address
    then if m.ram_enabled
      then (get_elem? m.ram (bit_and address 0x1ff) >>= λ v. some (bit_or (bit_and v 0xf) 0xf0))
      else some 0xff
    else none

-- `0x0..=0x3FFF`: bit 8 of the address tells the two registers apart. A remainder by no banks is a
-- panic.
pub write_register : Mbc2 → ℕ → ℕ → Option Mbc2
write_register m address byte =
    if bit_and address 0x100 == 0
    then some (record m { ram_enabled = bit_and byte 0xf == 0xa })
    else if bit_and byte 0xf == 0
    then some (record m { rom_bank = 1 })
    else if m.num_rom_banks == 0
    then none
    else some (record m { rom_bank = bit_and byte 0xf % m.num_rom_banks })

pub write : Mbc2 → ℕ → ℕ → Option Mbc2
write m address byte =
    if leb address 0x3fff
    then write_register m address byte
    else if between 0xa000 0xbfff address && m.ram_enabled
    then (set? m.ram (bit_and address 0x1ff) (bit_and byte 0xf) >>= λ ram.
        some (record m { ram = ram }))
    else some m

pub save : Mbc2 → Option (String × List ℕ)
save m = save_to m.save_path m.ram
