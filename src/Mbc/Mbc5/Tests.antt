-- ===== src/Mbc/Mbc5/Tests.antt =====
-- A 64 KiB cartridge with an MBC5, with one bank of RAM and without.
use zenith_gb.Base.{
  ℕ, ◌+◌, ◌-◌, ◌*◌, ◌%◌, ◌^◌, ◌≡◌, refl, true, List, none, some, length, get_elem?, ◌>>=◌,
  replicate, arith, length-replicate,
}
use zenith_gb.Mbc.Mbc5.{Mbc5, read, write}
use zenith_gb.Mbc.Mbc5.Bounds.{IsValid}
use zenith_gb.Mbc.Mbc5.Banking.{select_nine_bits-read}

rom_bytes : List ℕ
rom_bytes = replicate 65536 0

length-rom_bytes : length rom_bytes ≡ 65536
unfolding rom_bytes
length-rom_bytes = length-replicate {A = ℕ} 65536 0

ram_bytes : List ℕ
ram_bytes = replicate 8192 0

length-ram_bytes : length ram_bytes ≡ 8192
unfolding ram_bytes
length-ram_bytes = length-replicate {A = ℕ} 8192 0

abbrev small : Mbc5
small = record {
  rom = rom_bytes;
  ram = ram_bytes;
  rom_bank = 3;
  ram_bank = 0;
  ram_enabled = true;
  num_rom_banks = 4;
  num_ram_banks = 1;
  save_path = none;
}

small-IsValid : IsValid 1 small
small-IsValid = record {
  rom_len = length-rom_bytes;
  banks = refl;
  bank_in = omega arith;
  ram_len = length-ram_bytes;
  ram_bank_in = omega arith;
}

select_nine_bits-read_example :
    (m' : Mbc5) × ((write small 0x2000 0x06 >>= λ m1. write m1 0x3000 1) ≡ some m')
    × (read m' 0x4010
        ≡ get_elem? rom_bytes (0x4000 * ((256 * (1 % 2) + 0x06) % 2 ^ (1 + 1)) + (0x4010 - 0x4000)))
select_nine_bits-read_example =
    select_nine_bits-read 1 small 0x06 1 0x4010 small-IsValid (omega arith) (omega arith)
      (omega arith) (omega arith)
