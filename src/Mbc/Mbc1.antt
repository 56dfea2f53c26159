-- ===== src/Mbc/Mbc1.antt =====
-- src/mbc/mbc1.rs: 5 bits of ROM bank, 2 bits shared by RAM and large ROMs, and a mode flag.
pub mod Bounds
pub mod Banking
pub mod Load
pub mod Ram
mod Tests
use Prim.Native.String.{String}
use zenith_gb.Base.{
  ℕ, ◌+◌, ◌-◌, ◌*◌, ◌/◌, ◌%◌, Bool, true, false, ◌&&◌, ◌||◌, List, [], Option, none, some, bit_and,
  bit_or, ◌<<<◌, ◌>>>◌, ◌==◌, ◌!=◌, leb, between, max, length, get_elem?, set?, take, replicate,
  checked_sub, ◌>>=◌, if◌then◌else◌,
}
use zenith_gb.Cartridge.{Cartridge}
use zenith_gb.Mbc.{Banks, ram_banks, rom_banks, SaveFile, load_save, save_to}

abbrev pub bytes_8_kib : ℕ
bytes_8_kib = 8192

abbrev pub bytes_32_kib : ℕ
bytes_32_kib = 32768

abbrev pub bytes_1_mib : ℕ
bytes_1_mib = 1048576

abbrev pub bytes_2_mib : ℕ
bytes_2_mib = 2097152

pub record Mbc1 : Type 0 where
  pub rom : List ℕ
  pub ram : List ℕ
  pub rom_mask : ℕ
  pub rom_bank : ℕ
  pub ram_bank : ℕ
  pub mode_flag : Bool
  pub ram_enabled : Bool
  pub save_path : Option String

pub new : Mbc1
new = record {
  rom = [];
  ram = [];
  rom_mask = 0;
  rom_bank = 1;
  ram_bank = 0;
  mode_flag = false;
  ram_enabled = false;
  save_path = none;
}

-- The RAM's size and the mode decide; sizes other than 8 and 32 KiB are panics.
pub ram_address : Mbc1 → ℕ → Option ℕ
ram_address m address =
    let ram_size = length m.ram in
    if ram_size == bytes_8_kib
    then some ((address - 0xa000) % ram_size)
    else if ram_size == bytes_32_kib
    then some (if m.mode_flag then 0x2000 * m.ram_bank + (address - 0xa000) else address - 0xa000)
    else none

-- The RAM that `load` starts with: RAM on a type that has none is a panic.
pub load_ram : Mbc1 → Cartridge → Option (List ℕ)
load_ram m cartridge =
    if cartridge.header.cart_type == 2 || cartridge.header.cart_type == 3
    then (ram_banks cartridge.header.ram_size >>= λ r. some (replicate r.size_bytes 0))
    else if cartridge.header.ram_size != 0
    then none
    else some m.ram

pub load : Mbc1 → Cartridge → Option SaveFile → Option Mbc1
load m cartridge file = do
  banks ← rom_banks cartridge.header.rom_size
  assert ← if banks.size_bytes == length cartridge.bytes then some true else none
  shift ← checked_sub 7 cartridge.header.rom_size
  ram ← load_ram m cartridge
  saved ← load_save (cartridge.header.cart_type == 3) file ram
  some (record m {
    rom_mask = 0xff >>> max shift 3;
    rom = take banks.size_bytes cartridge.bytes;
    ram = saved.0;
    save_path = elim saved.1 [ none ↦ m.save_path | some path ↦ some path ];
  })

-- The bank seen at 0x0000-0x3fff in mode 1.
pub zero_bank_number : Mbc1 → ℕ
zero_bank_number m =
    if length m.rom == bytes_1_mib
    then bit_and m.ram_bank 1 <<< 5
    else if length m.rom == bytes_2_mib
    then bit_and m.ram_bank 3 <<< 5
    else 0

-- The bank seen at 0x4000-0x7fff.
pub high_bank_number : Mbc1 → ℕ
high_bank_number m =
    if length m.rom == bytes_1_mib
    then bit_or (bit_and m.rom_bank m.rom_mask) (bit_and m.ram_bank 1 <<< 5)
    else if length m.rom == bytes_2_mib
    then bit_or (bit_and m.rom_bank m.rom_mask) (bit_and m.ram_bank 3 <<< 5)
    else m.rom_bank

pub read : Mbc1 → ℕ → Option ℕ
read m address =
    if leb address 0x3fff
    then get_elem? m.rom (if m.mode_flag then 0x4000 * zero_bank_number m + address else address)
    else if leb address 0x7fff
    then get_elem? m.rom (0x4000 * high_bank_number m + (address - 0x4000))
    else if between 0xa000 0xbfff address
    then if m.ram_enabled
      then (ram_address m address >>= λ ram_addr. get_elem? m.ram ram_addr)
      else some 0xff
    else none

-- The part of `write` below 0x8000, which sets a register.
pub write_register : Mbc1 → ℕ → ℕ → Mbc1
write_register m address byte =
    if leb address 0x1fff
    then if length m.ram == 0 then m else record m { ram_enabled = bit_and byte 0xf == 0xa }
    else if leb address 0x3fff
    then (let bank_num = bit_and byte 0x1f in
        record m { rom_bank = if bank_num == 0 then 1 else bit_and bank_num m.rom_mask })
    else if leb address 0x5fff
    then record m { ram_bank = bit_and byte 3 }
    else record m { mode_flag = bit_and byte 1 != 0 }

pub write : Mbc1 → ℕ → ℕ → Option Mbc1
write m address byte =
    if leb address 0x7fff
    then some (write_register m address byte)
    else if between 0xa000 0xbfff address && m.ram_enabled
    then (ram_address m address >>= λ ram_addr.
        set? m.ram ram_addr byte >>= λ ram. some (record m { ram = ram }))
    else some m

pub save : Mbc1 → Option (String × List ℕ)
save m = save_to m.save_path m.ram
