-- ===== src/Mbc/Mbc2/Tests.antt =====
-- A 64 KiB cartridge with an MBC2.
use zenith_gb.Base.{
  ℕ, ◌+◌, ◌-◌, ◌*◌, ◌%◌, ◌^◌, ◌≡◌, refl, true, List, none, some, length, get_elem?, replicate,
  arith, length-replicate, if◌then◌else◌, ◌==◌,
}
use zenith_gb.Mbc.Mbc2.{Mbc2, read, write}
use zenith_gb.Mbc.Mbc2.Bounds.{IsValid}
use zenith_gb.Mbc.Mbc2.Ram.{select_window-read}

rom_bytes : List ℕ
rom_bytes = replicate 65536 0

length-rom_bytes : length rom_bytes ≡ 65536
unfolding rom_bytes
length-rom_bytes = length-replicate {A = ℕ} 65536 0

ram_bytes : List ℕ
ram_bytes = replicate 512 0

length-ram_bytes : length ram_bytes ≡ 512
unfolding ram_bytes
length-ram_bytes = length-replicate {A = ℕ} 512 0

abbrev small : Mbc2
small = record {
  rom = rom_bytes;
  ram = ram_bytes;
  rom_bank = 3;
  num_rom_banks = 4;
  ram_enabled = true;
  save_path = none;
}

small-IsValid : IsValid 1 small
small-IsValid = record {
  rom_len = length-rom_bytes;
  banks = refl;
  bank_in = omega arith;
  ram_len = length-ram_bytes;
}

select_window-read_example :
    (m' : Mbc2) × (write small 0x2100 0x06 ≡ some m')
    × (read m' 0x4010
        ≡ get_elem? rom_bytes (
            0x4000 * ((if 0x06 % 16 == 0 then 1 else 0x06 % 16) % 2 ^ (1 + 1)) + (0x4010 - 0x4000)))
select_window-read_example =
    select_window-read 1 small 0x2100 0x06 0x4010 small-IsValid (omega arith) refl (omega arith)
      (omega arith)
