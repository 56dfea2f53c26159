-- ===== src/Mbc/Mbc1/Tests.antt =====
-- A 64 KiB cartridge with 8 KiB of battery RAM.
use zenith_gb.Base.{
  ℕ, ◌+◌, ◌-◌, ◌*◌, ◌%◌, ◌^◌, ◌≡◌, ◌≢◌, inl, inr, refl, sym, ◌∙◌, true, false, List, [], none, some,
  length, get_elem?, replicate, arith, Returns, length-replicate,
}
use zenith_gb.Cartridge.{Cartridge, CartridgeHeader}
use zenith_gb.Mbc.{ram_banks}
use zenith_gb.Mbc.Mbc1.{Mbc1, new, load, load_ram, save, read, write, write_register, ram_address}
use zenith_gb.Mbc.Mbc1.Bounds.{IsValid, Written, write-IsValid, read-total}
use zenith_gb.Mbc.Mbc1.Banking.{asked, select_bank-read}
use zenith_gb.Mbc.Mbc1.Ram.{read-write, disabled_ram}
use zenith_gb.Mbc.Mbc1.Load.{IsCartridge, load-IsValid, save-load_roundtrip}

rom_bytes : List ℕ
rom_bytes = replicate 65536 0

length-rom_bytes : length rom_bytes ≡ 65536
unfolding rom_bytes
length-rom_bytes = length-replicate {A = ℕ} 65536 0

ram_bytes : List ℕ
ram_bytes = replicate 8192 9

length-ram_bytes : length ram_bytes ≡ 8192
unfolding ram_bytes
length-ram_bytes = length-replicate {A = ℕ} 8192 9

abbrev small : Mbc1
small = record {
  rom = rom_bytes;
  ram = ram_bytes;
  rom_mask = 3;
  rom_bank = 1;
  ram_bank = 0;
  mode_flag = false;
  ram_enabled = true;
  save_path = some "game.gb.sav";
}

small-IsValid : IsValid 1 small
small-IsValid = record {
  known = omega arith;
  rom_len = length-rom_bytes;
  mask = refl;
  bank_mask = omega arith;
  two_bits = omega arith;
  ram_len = inr (inl length-ram_bytes);
  no_ram = inr (omega (arith, length-ram_bytes));
}

write-IsValid_example : Returns (λ q. IsValid 1 q × Written small 0x22 q) (write small 0x2000 0x22)
write-IsValid_example = write-IsValid 1 small 0x2000 0x22 small-IsValid

read-total_example : (byte : ℕ) × (read small 0xa123 ≡ some byte)
read-total_example = read-total 1 small 0xa123 small-IsValid (inr (omega arith))

-- 0x22 asks for bank 2 of the four.
select_bank-read_example :
    read (write_register (write_register small 0x2000 0x22) 0x4000 1) 0x4010
    ≡ get_elem? rom_bytes (0x4000 * ((32 * (1 % 4) + asked 0x22) % 2 ^ (1 + 1)) + (0x4010 - 0x4000))
select_bank-read_example =
    select_bank-read 1 small 0x22 1 0x4010 small-IsValid (omega arith) (omega arith)

apart : ram_address small 0xa001 ≢ ram_address small 0xa000
unfolding ram_address
apart = ground (arith, length-ram_bytes)

read-write_example :
    (m' : Mbc1) × (write small 0xa000 0x5a ≡ some m')
    × (read m' 0xa000 ≡ some 0x5a)
    × (read m' 0xa001 ≡ read small 0xa001)
read-write_example =
    read-write 1 small 0xa000 0xa001 0x5a small-IsValid refl (omega arith) (omega arith)
      (omega arith) (omega arith) apart

abbrev closed_ram : Mbc1
closed_ram = record small { ram_enabled = false }

disabled_ram_example :
    (write closed_ram 0xa000 0x5a ≡ some closed_ram) × (read closed_ram 0xa000 ≡ some 0xff)
disabled_ram_example = disabled_ram closed_ram 0xa000 0x5a refl (omega arith) (omega arith)

abbrev header : CartridgeHeader
header = record {
  entrypoint = [];
  logo = [];
  title = [];
  cgb_flag = 0;
  lic_code_new = [];
  sgb_flag = 0;
  cart_type = 3;
  rom_size = 1;
  ram_size = 2;
  dst_code = 0;
  lic_code_old = 0;
  rom_version_mask = 0;
  header_checksum = 0;
  global_checksum = [];
  header_checksum_verified = 0;
}

abbrev game : Cartridge
game = record { bytes = rom_bytes; header = header }

game-IsCartridge : IsCartridge game
game-IsCartridge = record { rom = omega arith; size = length-rom_bytes; ram = inr (omega arith) }

load-IsValid_example :
    Returns
      (λ m.
        IsValid 1 m
        × (m.rom_bank ≡ 1)
        × (m.mode_flag ≡ false)
        × (m.ram_enabled ≡ false)
        × (m.ram ≡ replicate (length m.ram) 0))
      (load new game (some (record { path = "game.sav"; found = none })))
load-IsValid_example =
    load-IsValid game (some (record { path = "game.sav"; found = none })) game-IsCartridge refl

zeros : List ℕ
zeros = replicate 8192 0

start : load_ram new game ≡ some zeros
unfolding load_ram ram_banks zeros
start = refl

length-zeros : length zeros ≡ 8192
unfolding zeros
length-zeros = length-replicate {A = ℕ} 8192 0

save-load_roundtrip_example :
    (m' : Mbc1) × (save small ≡ some ("game.gb.sav", ram_bytes))
    × (load new game (some (record { path = "game.gb.sav"; found = some ram_bytes })) ≡ some m')
    × (m'.ram ≡ ram_bytes)
    × (save m' ≡ save small)
save-load_roundtrip_example =
    save-load_roundtrip game small "game.gb.sav" zeros game-IsCartridge refl refl start
      (length-ram_bytes ∙ sym length-zeros)
