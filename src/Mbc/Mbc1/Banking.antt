-- ===== src/Mbc/Mbc1/Banking.antt =====
-- Which ROM bytes an MBC1 maps.
use zenith_gb.Base.{
  ℕ, suc, ◌+◌, ◌-◌, ◌*◌, ◌%◌, ◌^◌, ◌≤◌, ◌<◌, ◌≡◌, ◌∙◌, ◌==◌, get_elem?, bit_and, if◌then◌else◌,
  arith,
}
use zenith_gb.Base.Bits.{bit_and-mask}
use zenith_gb.Mbc.Mbc1.{Mbc1, high_bank_number, read, write_register}
use zenith_gb.Mbc.Mbc1.Bounds.{
  IsValid, joined, low_bits, bit_and-low_bits, bank_bounds, write_register-IsValid,
}

-- The bank number that a write of `byte` to 0x2000-0x3fff asks for: 0 stands for 1.
abbrev pub asked : ℕ → ℕ
asked byte = if byte % 32 == 0 then 1 else byte % 32

-- Masking the bank number early does not change the joined number.
joined-mask :
    (code b a : ℕ)
    → code ≤ 6
    → joined code (if b % 32 == 0 then 1 else b % 32 % (low_bits code + 1)) a
      ≡ joined code (asked b) a
joined-mask (suc (suc (suc (suc (suc (suc (suc k))))))) b a h = absurd (omega arith)
joined-mask _ b a h = ground arith

read-high :
    (m : Mbc1) (address : ℕ)
    → 0x4000 ≤ address
    → address < 0x8000
    → read m address ≡ get_elem? m.rom (0x4000 * high_bank_number m + (address - 0x4000))
unfolding read
read-high m address lo hi = ground arith

selected_bank :
    (m : Mbc1) (b1 b2 : ℕ)
    → let m' = write_register (write_register m 0x2000 b1) 0x4000 b2 in
      (m'.rom_bank ≡ (if b1 % 32 == 0 then 1 else bit_and (b1 % 32) m.rom_mask))
      × (m'.ram_bank ≡ b2 % 4)
      × (m'.rom ≡ m.rom)
unfolding write_register
selected_bank m b1 b2 = ground (arith, bit_and-mask 5 b1, bit_and-mask 2 b2)

-- On a valid controller, after a write of `b1` to 0x2000 and of `b2` to 0x4000, the window
-- 0x4000-0x7fff shows the ROM bank whose number joins the two low bits of `b2` above the five low
-- bits of `b1`, with 1 in place of 0 for those five, modulo the number of banks that the ROM has.
pub select_bank-read :
    (code : ℕ) (m : Mbc1) (b1 b2 address : ℕ)
    → IsValid code m
    → 0x4000 ≤ address
    → address < 0x8000
    → read (write_register (write_register m 0x2000 b1) 0x4000 b2) address
      ≡ get_elem? m.rom
          (0x4000 * ((32 * (b2 % 4) + asked b1) % 2 ^ (code + 1)) + (address - 0x4000))
select_bank-read code m b1 b2 address v lo hi =
    let m1 : Mbc1 = write_register m 0x2000 b1 in
    let m2 : Mbc1 = write_register m1 0x4000 b2 in
    let v2 = write_register-IsValid code m1 0x4000 b2 (write_register-IsValid code m 0x2000 b1 v) in
    let (bank, two, rom) = selected_bank m b1 b2 in
    let high = (bank_bounds code m2 v2).0 in
    let bits = bit_and-low_bits code (b1 % 32) v.known in
    read-high m2 address lo hi ∙ ground (arith, joined-mask code b1 (b2 % 4), v)
