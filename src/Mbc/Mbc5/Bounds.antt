-- ===== src/Mbc/Mbc5/Bounds.antt =====
-- The invariant of an MBC5, its operations on a cartridge with RAM, and the panic without.
use native.Mathlib.Nat.{pow-suc, one-le-pow, mod-lt}
use zenith_gb.Base.{
  ℕ, ◌+◌, ◌-◌, ◌*◌, ◌%◌, ◌^◌, ◌≤◌, ◌<◌, ◌≡◌, ◌⊎◌, inl, inr, refl, true, false, ◌&&◌, [], none, some,
  bit_and, bit_or, ◌<<<◌, ◌==◌, leb, between, length, set, arith, Returns, Bool-cases,
  get_elem?-total, set?-eq-set, length-set,
}
use zenith_gb.Mbc.Ranges.{in_ram}
use zenith_gb.Mbc.Mbc5.{Mbc5, bank_mod, read, write, write_register}

-- `code` is the ROM size code of the header; there are `num_ram_banks` banks of 8 KiB.
pub record IsValid (code : ℕ) (m : Mbc5) : Type 0 where
  pub rom_len : length m.rom ≡ 32768 * 2 ^ code
  pub banks : m.num_rom_banks ≡ 2 ^ (code + 1)
  pub bank_in : m.rom_bank < m.num_rom_banks
  pub ram_len : length m.ram ≡ 8192 * m.num_ram_banks
  pub ram_bank_in : m.ram_bank < m.num_ram_banks

pub two_banks : (code : ℕ) → (32768 * 2 ^ code ≡ 16384 * 2 ^ (code + 1)) × (2 ≤ 2 ^ (code + 1))
two_banks code = ground (arith, pow-suc 2 code, one-le-pow code 2)

-- A cartridge with banks takes the remainder.
pub bank_mod-some : (a n : ℕ) → 0 < n → (b : ℕ) × (bank_mod a n ≡ some b) × (b ≡ a % n) × (b < n)
bank_mod-some a n pos = (a % n, ground arith, refl, ground (arith, mod-lt a {m = n}))

write_register-IsValid :
    (code : ℕ) (m : Mbc5) (address byte : ℕ)
    → IsValid code m
    → Returns (IsValid code) (write_register m address byte)
unfolding write_register
write_register-IsValid code m address byte v =
    let two = two_banks code in
    elim (Bool-cases (leb address 0x1fff)) [
      | inl p ↦ simp p (record m { ram_enabled = bit_and byte 0xf == 0xa }, refl, ground (arith, v))
      | inr p ↦ simp p (elim (Bool-cases (leb address 0x2fff)) [
        | inl q ↦
            let (b, eq, _, lt) =
              bank_mod-some (bit_or (bit_and m.rom_bank 0x100) byte) m.num_rom_banks
                (ground (arith, v)) in
            simp (q, eq) (record m { rom_bank = b }, refl, ground (arith, v))
        | inr q ↦ simp q (elim (Bool-cases (leb address 0x3fff)) [
          | inl r ↦
              let (b, eq, _, lt) =
                bank_mod-some (bit_or (bit_and m.rom_bank 0xff) (bit_and byte 1 <<< 8))
                  m.num_rom_banks (ground (arith, v)) in
              simp (r, eq) (record m { rom_bank = b }, refl, ground (arith, v))
          | inr r ↦
              let (b, eq, _, lt) =
                bank_mod-some (bit_and byte 0xf) m.num_ram_banks (ground (arith, v)) in
              simp (r, eq) (record m { ram_bank = b }, refl, ground (arith, v))
        ])
      ])
    ]

-- On a cartridge with RAM, a write sets a register or one cell of an enabled RAM; it never panics,
-- and what it leaves is valid for the same ROM.
pub write-IsValid :
    (code : ℕ) (m : Mbc5) (address byte : ℕ)
    → IsValid code m
    → Returns (IsValid code) (write m address byte)
unfolding write
write-IsValid code m address byte v = elim (Bool-cases (leb address 0x5fff)) [
  | inl low ↦ simp low (write_register-IsValid code m address byte v)
  | inr high ↦ simp high (elim (Bool-cases (between 0xa000 0xbfff address && m.ram_enabled)) [
    | inl on ↦
        let i : ℕ = 0x2000 * m.ram_bank + (address - 0xa000) in
        let lt : i < length m.ram = ground (arith, v) in
        simp (on, set?-eq-set m.ram i byte lt)
          (record m { ram = set m.ram i byte }, refl, ground (arith, v, length-set m.ram i byte))
    | inr off ↦ simp off (m, refl, v)
  ])
]

-- A read of the ROM or RAM range returns a value.
pub read-total :
    (code : ℕ) (m : Mbc5) (address : ℕ)
    → IsValid code m
    → (address < 0x8000) ⊎ ((0xa000 ≤ address) × (address ≤ 0xbfff))
    → (byte : ℕ) × (read m address ≡ some byte)
unfolding read
read-total code m address v h =
    let two = two_banks code in
    elim (Bool-cases (leb address 0x3fff)) [
      | inl low ↦ simp low (get_elem?-total m.rom address (ground (arith, v)))
      | inr high ↦ simp high (elim (Bool-cases (leb address 0x7fff)) [
        | inl bank ↦ simp bank (get_elem?-total m.rom _ (ground (arith, v)))
        | inr ram ↦
            let here : between 0xa000 0xbfff address ≡ true = ground arith in
            simp (ram, here)
              (elim (Bool-cases m.ram_enabled) [
                | inl on ↦ simp on (get_elem?-total m.ram _ (ground (arith, v)))
                | inr off ↦ simp off (0xff, refl)
              ])
      ])
    ]

-- On a cartridge without RAM every write to 0x4000-0x5fff panics, and so does every write to and
-- read of the RAM range once the RAM is enabled.
pub no_ram_panics :
    (m : Mbc5) (address byte ram_address : ℕ)
    → m.num_ram_banks ≡ 0
    → m.ram ≡ []
    → m.ram_enabled ≡ true
    → 0x4000 ≤ address
    → address ≤ 0x5fff
    → 0xa000 ≤ ram_address
    → ram_address ≤ 0xbfff
    → (write m address byte ≡ none)
      × (write m ram_address byte ≡ none)
      × (read m ram_address ≡ none)
unfolding read write write_register
no_ram_panics m address byte ram_address no_banks empty on lo hi lo' hi' =
    let (a, b, c, d) = in_ram ram_address lo' hi' in
    let e : leb ram_address 0x5fff ≡ false = ground arith in
    let f : leb address 0x5fff ≡ true = ground arith in
    let g : leb address 0x3fff ≡ false = ground arith in
    let h : leb address 0x2fff ≡ false = ground arith in
    let i : leb address 0x1fff ≡ false = ground arith in
    (simp (f, g, h, i, no_banks), simp (e, c, d, on, empty), simp (a, b, c, d, on, empty))
