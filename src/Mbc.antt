-- ===== src/Mbc.antt =====
-- src/mbc: the memory bank controllers. Here what they share, src/mbc/mbc.rs: bank counts, the save
-- file, and the controller of a cartridge that has none.
--
-- A write of the battery RAM is its value: the file and the bytes. Where a save file lies for a
-- ROM, and what it holds, is the file system's answer and an argument of `load`.
pub mod Ranges
pub mod Mbc1
pub mod Mbc2
pub mod Mbc3
pub mod Mbc5
use Prim.Native.String.{String}
use zenith_gb.Base.{
  ℕ, ◌+◌, ◌*◌, ◌^◌, Bool, List, Option, none, some, ◌==◌, ltb, leb, length, get_elem?, take, ◌>>=◌,
  if◌then◌else◌,
}

pub record Banks : Type 0 where
  pub num_banks : ℕ
  pub size_bytes : ℕ

-- Of a header only `ram_size` matters. A code above 5 is a panic.
unfoldable pub ram_banks : ℕ → Option Banks
ram_banks ram_size =
    let banks : ℕ → Option Banks =
      λ n. some (record { num_banks = n; size_bytes = n * 8 * 1024 }) in
    if leb ram_size 1
    then banks 0
    else if ram_size == 2
    then banks 1
    else if ram_size == 3
    then banks 4
    else if ram_size == 4
    then banks 16
    else if ram_size == 5
    then banks 8
    else none

-- Of a header only `rom_size` matters. From 49 on the byte count does not fit 64 bits: a panic.
unfoldable pub rom_banks : ℕ → Option Banks
rom_banks rom_size =
    if ltb rom_size 49
    then some (record { num_banks = 2 ^ (rom_size + 1); size_bytes = 32 * 1024 * 2 ^ rom_size })
    else none

-- What the file system answers for the path of a ROM: the path of its save file, if the ROM's path
-- is that of a ROM file, and the bytes found there, if it can be read.
pub record SaveFile : Type 0 where
  pub path : String
  pub found : Option (List ℕ)

-- `read_save`. Bytes of another length than the RAM's fail the assertion.
unfoldable pub read_save : Option (List ℕ) → List ℕ → Option (List ℕ)
read_save none mbc_ram = some mbc_ram
read_save (some bytes) mbc_ram = if length bytes == length mbc_ram then some bytes else none

-- The block of `load` that looks for a save file: the RAM and the path to save to.
unfoldable pub load_save : Bool → Option SaveFile → List ℕ → Option (List ℕ × Option String)
unfolding read_save
load_save battery none ram = some (ram, none)
load_save battery (some file) ram =
    if battery
    then (read_save file.found ram >>= λ restored. some (restored, some file.path))
    else some (ram, none)

-- `write_save` to the path that `load` found.
unfoldable pub save_to : Option String → List ℕ → Option (String × List ℕ)
save_to none ram = none
save_to (some path) ram = some (path, ram)

-- `MbcRomOnly`: its writes, clocks and saves do nothing.
pub record MbcRomOnly : Type 0 where
  pub rom : List ℕ

pub rom_only_load : List ℕ → Option MbcRomOnly
rom_only_load bytes =
    if leb 0x8000 (length bytes) then some (record { rom = take 0x8000 bytes }) else none

unfoldable pub rom_only_read : MbcRomOnly → ℕ → Option ℕ
rom_only_read m address = get_elem? m.rom address
