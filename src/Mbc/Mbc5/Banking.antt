-- ===== src/Mbc/Mbc5/Banking.antt =====
-- The nine bits of an MBC5's bank number, set by two registers.
use zenith_gb.Base.{
  ℕ, suc, ◌+◌, ◌-◌, ◌*◌, ◌/◌, ◌%◌, ◌^◌, ◌≤◌, ◌<◌, ◌≡◌, false, some, bit_and, bit_or, ◌<<<◌, ◌==◌,
  get_elem?, ◌>>=◌, arith,
}
use zenith_gb.Base.Bits.{bit_and-mask, bit_and-bit, bit_or_comm, bit_or-fields}
use zenith_gb.Mbc.Ranges.{in_high_rom}
use zenith_gb.Mbc.Mbc5.{Mbc5, read, write, write_register}
use zenith_gb.Mbc.Mbc5.Bounds.{IsValid}

fields-mod :
    (code q r b1 : ℕ)
    → code ≤ 8
    → (256 * q + (256 * r + b1) % 2 ^ (code + 1) % 256) % 2 ^ (code + 1)
      ≡ (256 * q + b1 % 256) % 2 ^ (code + 1)
fields-mod (suc (suc (suc (suc (suc (suc (suc (suc (suc k))))))))) q r b1 h = absurd (omega arith)
fields-mod _ q r b1 h = omega arith

-- The low byte first, then the ninth bit: each register is reduced modulo the number of banks.
pub nine_bits :
    (code bank b1 b2 : ℕ)
    → code ≤ 8
    → b1 < 256
    → bit_or (bit_and (bit_or (bit_and bank 0x100) b1 % 2 ^ (code + 1)) 0xff) (bit_and b2 1 <<< 8)
        % 2 ^ (code + 1)
      ≡ (256 * (b2 % 2) + b1) % 2 ^ (code + 1)
nine_bits code bank b1 b2 h byte =
    let low : ℕ = bit_or (bit_and bank 0x100) b1 in
    let low_lem : low ≡ 256 * (bank / 256 % 2) + b1 =
      ground (arith, bit_and-bit 8 bank, bit_or-fields 8 (bank / 256 % 2) b1) in
    let cut : ℕ = low % 2 ^ (code + 1) in
    ground (
      arith,
      fields-mod code (b2 % 2) (bank / 256 % 2) b1,
      bit_and-mask 8 cut,
      bit_and-mask 1 b2,
      bit_or_comm (cut % 256) (b2 % 2 * 256),
      bit_or-fields 8 (b2 % 2) (cut % 256),
    )

-- On a valid controller, after writes of the byte `b1` to 0x2000 and of `b2` to 0x3000, the window
-- 0x4000-0x7fff shows the ROM bank with the low bit of `b2` above the byte `b1`, modulo the number
-- of banks (at most 512), bank 0 included.
pub select_nine_bits-read :
    (code : ℕ) (m : Mbc5) (b1 b2 address : ℕ)
    → IsValid code m
    → code ≤ 8
    → b1 < 256
    → 0x4000 ≤ address
    → address < 0x8000
    → (m' : Mbc5) × ((write m 0x2000 b1 >>= λ m1. write m1 0x3000 b2) ≡ some m')
      × (read m' address
          ≡ get_elem? m.rom
              (0x4000 * ((256 * (b2 % 2) + b1) % 2 ^ (code + 1)) + (address - 0x4000)))
unfolding read write write_register
select_nine_bits-read code m b1 b2 address v known byte lo hi =
    let (a, b) = in_high_rom address lo hi in
    let some_banks : (m.num_rom_banks == 0) ≡ false = ground (arith, v) in
    let low : ℕ = bit_or (bit_and m.rom_bank 0x100) b1 % m.num_rom_banks in
    let bits = nine_bits code m.rom_bank b1 b2 known byte in
    (
      record m { rom_bank = bit_or (bit_and low 0xff) (bit_and b2 1 <<< 8) % m.num_rom_banks },
      simp some_banks,
      simp (a, b, v.banks, bits),
    )
