-- ===== src/Mbc/Mbc2/Ram.antt =====
-- The half-byte RAM of an MBC2, and its bank register.
use native.Mathlib.Nat.{mod-eq_of_lt}
use zenith_gb.Base.{
  ℕ, ◌+◌, ◌-◌, ◌*◌, ◌/◌, ◌%◌, ◌^◌, ◌≤◌, ◌<◌, ◌≡◌, ◌≢◌, ◌∙◌, ap, sym, inl, inr, true, false, some,
  bit_and, bit_or, ◌==◌, leb, length, get_elem?, set, if◌then◌else◌, arith, Bool-cases, set?-eq-set,
  get_elem?-set_self, get_elem?-set_ne,
}
use zenith_gb.Base.Bits.{bit_and-mask, bit_and-bit, bit_or_comm, bit_or-fields}
use zenith_gb.Mbc.Ranges.{in_ram, in_high_rom}
use zenith_gb.Mbc.Mbc2.{Mbc2, read, write, write_register}
use zenith_gb.Mbc.Mbc2.Bounds.{IsValid, two_banks}

-- A half-byte reads with its upper half set.
half_byte : (v : ℕ) → bit_or (bit_and v 0xf) 0xf0 ≡ 240 + v % 16
half_byte v =
    ground (arith, bit_and-mask 4 v, bit_or_comm (v % 16) 0xf0, bit_or-fields 4 15 (v % 16))

half_idem : (v : ℕ) → bit_or (bit_and (bit_and v 0xf) 0xf) 0xf0 ≡ 240 + v % 16
half_idem v = ground (arith, half_byte (bit_and v 0xf), bit_and-mask 4 v)

-- With the RAM of a valid controller enabled, a write stores the low half of the byte in the cell
-- that the low nine bits of the address select, so the 512 cells repeat through the whole range: a
-- read at any address that agrees modulo 512 gives that half with the upper half set, and any other
-- read is unchanged.
pub read-write_half :
    (code : ℕ) (m : Mbc2) (address other byte : ℕ)
    → IsValid code m
    → m.ram_enabled ≡ true
    → 0xa000 ≤ address
    → address ≤ 0xbfff
    → 0xa000 ≤ other
    → other ≤ 0xbfff
    → (m' : Mbc2) × (write m address byte ≡ some m')
      × (read m' other
          ≡ (if address % 512 == other % 512 then some (240 + byte % 16) else read m other))
unfolding read write
read-write_half code m address other byte v on lo hi lo' hi' =
    let (a, b, c, d) = in_ram address lo hi in
    let (a', b', c', d') = in_ram other lo' hi' in
    let i : ℕ = bit_and address 0x1ff in
    let j : ℕ = bit_and other 0x1ff in
    let half : ℕ = bit_and byte 0xf in
    let i_lem = bit_and-mask 9 address in
    let j_lem = bit_and-mask 9 other in
    let m' : Mbc2 = record m { ram = set m.ram i half } in
    let lt : i < length m.ram = ground (arith, v) in
    let stored = set?-eq-set m.ram i half lt in
    (
      m',
      simp (a, b, c, d, on, stored),
      simp (a', b', c', d', on)
          (elim (Bool-cases (address % 512 == other % 512)) [
            | inl same ↦
                let eq : i ≡ j = ground (arith, i_lem, j_lem) in
                let stored_j : get_elem? (set m.ram i half) j ≡ some half =
                  ap (λ k. get_elem? (set m.ram i half) k) (sym eq)
                  ∙ get_elem?-set_self m.ram i half lt in
                simp (same, stored_j, half_idem byte)
            | inr ne ↦
                let apart : i ≢ j = λ e. ground (arith, i_lem, j_lem, e) in
                simp (ne, get_elem?-set_ne m.ram i j half apart)
          ]),
    )

one_bank : (code : ℕ) → 1 % 2 ^ (code + 1) ≡ 1
one_bank code = mod-eq_of_lt (two_banks code).1

-- On a valid controller, a write of `byte` to an address of the ROM's lower half with bit 8 set
-- selects the ROM bank: the window then shows bank `byte` modulo 16, with 1 in place of 0, modulo
-- the number of banks.
pub select_window-read :
    (code : ℕ) (m : Mbc2) (select byte address : ℕ)
    → IsValid code m
    → select < 0x4000
    → select / 256 % 2 ≡ 1
    → 0x4000 ≤ address
    → address < 0x8000
    → (m' : Mbc2) × (write m select byte ≡ some m')
      × (read m' address
          ≡ get_elem? m.rom (
              0x4000 * ((if byte % 16 == 0 then 1 else byte % 16) % 2 ^ (code + 1))
              + (address - 0x4000)))
unfolding read write write_register
select_window-read code m select byte address v lt bit lo hi =
    let select_bit : (bit_and select 0x100 == 0) ≡ false = ground (arith, bit_and-bit 8 select) in
    let half = bit_and-mask 4 byte in
    let some_banks : (m.num_rom_banks == 0) ≡ false = ground (arith, v) in
    let low : leb select 0x3fff ≡ true = ground arith in
    let (a, b) = in_high_rom address lo hi in
    elim (Bool-cases (byte % 16 == 0)) [
      | inl z ↦
          let no_bits : (bit_and byte 0xf == 0) ≡ true = ground (arith, half) in
          (
            record m { rom_bank = 1 },
            simp (low, select_bit, no_bits),
            simp (a, b, z) (ground (arith, one_bank code)),
          )
      | inr z ↦
          let bits : (bit_and byte 0xf == 0) ≡ false = ground (arith, half) in
          (
            record m { rom_bank = bit_and byte 0xf % m.num_rom_banks },
            simp (low, select_bit, bits, some_banks),
            simp (a, b, z, half, v.banks),
          )
    ]
