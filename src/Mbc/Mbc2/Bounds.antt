-- ===== src/Mbc/Mbc2/Bounds.antt =====
-- The invariant of an MBC2: every operation keeps it, and no access panics.
use native.Mathlib.Nat.{pow-suc, one-le-pow, mod-lt}
use zenith_gb.Base.{
  ℕ, ◌+◌, ◌*◌, ◌%◌, ◌^◌, ◌≤◌, ◌<◌, ◌≡◌, ◌⊎◌, inl, inr, refl, true, false, ◌&&◌, some, bit_and, ◌==◌,
  leb, between, length, set, arith, Returns, Bool-cases, get_elem?-total, set?-eq-set, length-set,
}
use zenith_gb.Base.Bits.{bit_and-mask}
use zenith_gb.Mbc.Mbc2.{Mbc2, read, write, write_register}

-- `code` is the ROM size code of the header.
pub record IsValid (code : ℕ) (m : Mbc2) : Type 0 where
  pub rom_len : length m.rom ≡ 32768 * 2 ^ code
  pub banks : m.num_rom_banks ≡ 2 ^ (code + 1)
  pub bank_in : m.rom_bank < m.num_rom_banks
  pub ram_len : length m.ram ≡ 512

pub two_banks : (code : ℕ) → (32768 * 2 ^ code ≡ 16384 * 2 ^ (code + 1)) × (2 ≤ 2 ^ (code + 1))
two_banks code = ground (arith, pow-suc 2 code, one-le-pow code 2)

write_register-IsValid :
    (code : ℕ) (m : Mbc2) (address byte : ℕ)
    → IsValid code m
    → Returns (IsValid code) (write_register m address byte)
unfolding write_register
write_register-IsValid code m address byte v =
    let two = two_banks code in
    elim (Bool-cases (bit_and address 0x100 == 0)) [
      | inl p ↦ simp p (record m { ram_enabled = bit_and byte 0xf == 0xa }, refl, ground (arith, v))
      | inr p ↦ simp p (elim (Bool-cases (bit_and byte 0xf == 0)) [
        | inl q ↦ simp q (record m { rom_bank = 1 }, refl, ground (arith, v))
        | inr q ↦
            let some_banks : (m.num_rom_banks == 0) ≡ false = ground (arith, v) in
            simp (q, some_banks)
              (
                record m { rom_bank = bit_and byte 0xf % m.num_rom_banks },
                refl,
                ground (arith, v, mod-lt (bit_and byte 0xf) {m = m.num_rom_banks}),
              )
      ])
    ]

-- A write sets a register or one half-byte of an enabled RAM; it never panics, and what it leaves
-- is valid for the same ROM.
pub write-IsValid :
    (code : ℕ) (m : Mbc2) (address byte : ℕ)
    → IsValid code m
    → Returns (IsValid code) (write m address byte)
unfolding write
write-IsValid code m address byte v = elim (Bool-cases (leb address 0x3fff)) [
  | inl low ↦ simp low (write_register-IsValid code m address byte v)
  | inr high ↦ simp high (elim (Bool-cases (between 0xa000 0xbfff address && m.ram_enabled)) [
    | inl on ↦
        let lt : bit_and address 0x1ff < length m.ram = ground (arith, bit_and-mask 9 address, v) in
        simp (on, set?-eq-set m.ram (bit_and address 0x1ff) (bit_and byte 0xf) lt)
          (
            record m { ram = set m.ram (bit_and address 0x1ff) (bit_and byte 0xf) },
            refl,
            ground (arith, v, length-set m.ram (bit_and address 0x1ff) (bit_and byte 0xf)),
          )
    | inr off ↦ simp off (m, refl, v)
  ])
]

-- A read of the ROM or RAM range returns a value.
pub read-total :
    (code : ℕ) (m : Mbc2) (address : ℕ)
    → IsValid code m
    → (address < 0x8000) ⊎ ((0xa000 ≤ address) × (address ≤ 0xbfff))
    → (byte : ℕ) × (read m address ≡ some byte)
unfolding read
read-total code m address v h =
    let two = two_banks code in
    elim (Bool-cases (leb address 0x3fff)) [
      | inl low ↦ simp low (get_elem?-total m.rom address (ground (arith, v)))
      | inr high ↦ simp high (elim (Bool-cases (leb address 0x7fff)) [
        | inl bank ↦ simp bank (get_elem?-total m.rom _ (ground (arith, v)))
        | inr ram ↦
            let here : between 0xa000 0xbfff address ≡ true = ground arith in
            simp (ram, here)
              (elim (Bool-cases m.ram_enabled) [
                | inl on ↦
                    let (b, found) =
                      get_elem?-total m.ram (bit_and address 0x1ff)
                        (ground (arith, bit_and-mask 9 address, v)) in
                    simp (on, found) (_, refl)
                | inr off ↦ simp off (0xff, refl)
              ])
      ])
    ]
