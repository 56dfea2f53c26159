-- ===== src/Mbc/Mbc1/Bounds.antt =====
-- The invariant of an MBC1, that every operation keeps it, and that no access within the
-- controller's address ranges panics.
use zenith_gb.Base.{
  inl, inr, ◌&&◌, Bool-cases, if_cases, ℕ, zero, suc, ◌+◌, ◌-◌, ◌*◌, ◌/◌, ◌%◌, ◌^◌, ◌≤◌, ◌<◌, ◌≡◌,
  ◌⊎◌, refl, true, false, some, bit_and, bit_or, ◌<<<◌, ◌==◌, leb, between, max, length, set,
  if◌then◌else◌, arith, Returns, get_elem?-total, set?-eq-set, length-set,
}
use zenith_gb.Base.Bits.{bit_and-mask, bit_and-le, bit_or-fields, bit_or_comm}
use native.Mathlib.Nat.{pow-suc, one-le-pow}
use zenith_gb.Mbc.Mbc1.{
  Mbc1, ram_address, zero_bank_number, high_bank_number, read, write, write_register, bytes_1_mib,
  bytes_2_mib,
}

-- `code` is the ROM size code of the header, up to 2 MiB.
pub record IsValid (code : ℕ) (m : Mbc1) : Type 0 where
  pub known : code ≤ 6
  pub rom_len : length m.rom ≡ 32768 * 2 ^ code
  pub mask : m.rom_mask ≡ 255 / 2 ^ max (7 - code) 3
  pub bank_mask : m.rom_bank ≤ m.rom_mask
  pub two_bits : m.ram_bank < 4
  pub ram_len : (length m.ram ≡ 0) ⊎ (length m.ram ≡ 8192) ⊎ (length m.ram ≡ 32768)
  pub no_ram : (m.ram_enabled ≡ false) ⊎ (0 < length m.ram)

abbrev pub low_bits : ℕ → ℕ
low_bits code = 255 / 2 ^ max (7 - code) 3

pub low_bits-pos : (code : ℕ) → code ≤ 6 → 1 ≤ low_bits code
low_bits-pos (suc (suc (suc (suc (suc (suc (suc k))))))) h = absurd (omega arith)
low_bits-pos _ h = omega arith

-- `x & mask` is a remainder for each of the masks.
pub bit_and-low_bits : (code x : ℕ) → code ≤ 6 → bit_and x (low_bits code) ≡ x % (low_bits code + 1)
bit_and-low_bits (suc (suc (suc (suc (suc (suc (suc k))))))) x h = absurd (omega arith)
bit_and-low_bits zero x h = omega (arith, bit_and-mask 1 x)
bit_and-low_bits (suc zero) x h = omega (arith, bit_and-mask 2 x)
bit_and-low_bits (suc (suc zero)) x h = omega (arith, bit_and-mask 3 x)
bit_and-low_bits (suc (suc (suc zero))) x h = omega (arith, bit_and-mask 4 x)
bit_and-low_bits _ x h = omega (arith, bit_and-mask 5 x)

-- The numbers of the two banks that are mapped, from sizes alone.
abbrev pub joined : ℕ → ℕ → ℕ → ℕ
joined code rom_bank ram_bank = (32 * ram_bank + rom_bank) % 2 ^ (code + 1)

high_bank_at :
    (code len rom_bank ram_bank : ℕ)
    → code ≤ 6
    → len ≡ 32768 * 2 ^ code
    → rom_bank ≤ low_bits code
    → ram_bank < 4
    → (if len == bytes_1_mib
        then bit_or (bit_and rom_bank (low_bits code)) (bit_and ram_bank 1 <<< 5)
        else if len == bytes_2_mib
        then bit_or (bit_and rom_bank (low_bits code)) (bit_and ram_bank 3 <<< 5)
        else rom_bank)
      ≡ joined code rom_bank ram_bank
high_bank_at (suc (suc (suc (suc (suc (suc (suc k))))))) len b a h e p q = absurd (omega arith)
high_bank_at zero len b a h e p q = ground arith
high_bank_at (suc zero) len b a h e p q = ground arith
high_bank_at (suc (suc zero)) len b a h e p q = ground arith
high_bank_at (suc (suc (suc zero))) len b a h e p q = ground arith
high_bank_at (suc (suc (suc (suc zero)))) len b a h e p q = ground arith
high_bank_at _ len b a h e p q = ground (
  arith,
  bit_and-mask 5 b,
  bit_and-mask 1 a,
  bit_and-mask 2 a,
  bit_or_comm b (a % 2 * 32),
  bit_or_comm b (a % 4 * 32),
  bit_or-fields 5 (a % 2) b,
  bit_or-fields 5 (a % 4) b,
)

zero_bank_at :
    (code len ram_bank : ℕ)
    → code ≤ 6
    → len ≡ 32768 * 2 ^ code
    → (if len == bytes_1_mib
        then bit_and ram_bank 1 <<< 5
        else if len == bytes_2_mib
        then bit_and ram_bank 3 <<< 5
        else 0)
      < 2 ^ (code + 1)
zero_bank_at (suc (suc (suc (suc (suc (suc (suc k))))))) len a h e = absurd (omega arith)
zero_bank_at _ len a h e = ground (arith, bit_and-mask 1 a, bit_and-mask 2 a)

-- An enabled RAM is addressed within its bounds.
pub ram_address_bound :
    (code : ℕ) (m : Mbc1) (address : ℕ)
    → IsValid code m
    → m.ram_enabled ≡ true
    → 0xa000 ≤ address
    → address ≤ 0xbfff
    → (i : ℕ) × (ram_address m address ≡ some i) × (i < length m.ram)
unfolding ram_address
ram_address_bound code m address v on lo hi = elim v.ram_len [
  | inl e ↦ absurd (ground (arith, v.no_ram))
  | inr (inl e) ↦ ((address - 0xa000) % length m.ram, ground arith, ground arith)
  | inr (inr e) ↦ (
    if m.mode_flag then 0x2000 * m.ram_bank + (address - 0xa000) else address - 0xa000,
    ground arith,
    ground (arith, v.two_bits),
  )
]

pub write_register-IsValid :
    (code : ℕ) (m : Mbc1) (address byte : ℕ)
    → IsValid code m
    → IsValid code (write_register m address byte)
unfolding write_register
write_register-IsValid code m address byte v =
    if_cases (IsValid code) (leb address 0x1fff)
      (λ _. if_cases (IsValid code) (length m.ram == 0) (λ _. v) (λ some_ram. ground (arith, v)))
      λ _.
        if_cases (IsValid code) (leb address 0x3fff)
          (λ _. ground (arith, v, low_bits-pos code, bit_and-le (bit_and byte 0x1f) m.rom_mask))
          λ _.
            if_cases (IsValid code) (leb address 0x5fff) (λ _. ground (arith, v, bit_and-le byte 3))
              (λ _. ground (arith, v))

-- What a write leaves: the same ROM, and the same RAM but for one cell at most, which holds the
-- byte and for which the RAM was enabled and nothing else changes.
abbrev pub Written : Mbc1 → ℕ → Mbc1 → Type 0
Written m byte q =
    (q.rom ≡ m.rom)
    × (q.rom_mask ≡ m.rom_mask)
    × ((q.ram ≡ m.ram)
        ⊎ ((i : ℕ) × (m.ram_enabled ≡ true)
            × (i < length m.ram)
            × (q ≡ record m { ram = set m.ram i byte })))

write_register-Written :
    (m : Mbc1) (address byte : ℕ) → Written m byte (write_register m address byte)
unfolding write_register
write_register-Written m address byte =
    if_cases (Written m byte) (leb address 0x1fff)
      (λ _.
        if_cases (Written m byte) (length m.ram == 0) (λ _. (refl, refl, inl refl))
          (λ _. (refl, refl, inl refl)))
      λ _.
        if_cases (Written m byte) (leb address 0x3fff) (λ _. (refl, refl, inl refl))
          λ _.
            if_cases (Written m byte) (leb address 0x5fff) (λ _. (refl, refl, inl refl))
              (λ _. (refl, refl, inl refl))

-- A write to a valid controller never panics and leaves it valid, with the same ROM. The RAM is the
-- same too, or the RAM is enabled and one of its cells now holds the byte, and nothing else
-- changes.
pub write-IsValid :
    (code : ℕ) (m : Mbc1) (address byte : ℕ)
    → IsValid code m
    → Returns (λ q. IsValid code q × Written m byte q) (write m address byte)
unfolding write
write-IsValid code m address byte v = elim (Bool-cases (leb address 0x7fff)) [
  | inl low ↦ rw low (
    write_register m address byte,
    refl,
    (write_register-IsValid code m address byte v, write_register-Written m address byte),
  )
  | inr high ↦ rw high (elim (Bool-cases (between 0xa000 0xbfff address && m.ram_enabled)) [
    | inl on ↦
        let (i, found, lt) =
          ram_address_bound code m address v (ground arith) (ground arith) (ground arith) in
        rw (on, found, set?-eq-set m.ram i byte lt)
          (
            record m { ram = set m.ram i byte },
            refl,
            (
              ground (arith, length-set m.ram i byte),
              (refl, refl, inr (i, ground arith, lt, refl)),
            ),
          )
    | inr off ↦ rw off (m, refl, (v, (refl, refl, inl refl)))
  ])
]

-- The two mapped ROM banks exist.
pub bank_bounds :
    (code : ℕ) (m : Mbc1)
    → IsValid code m
    → (high_bank_number m ≡ joined code m.rom_bank m.ram_bank)
      × (high_bank_number m < 2 ^ (code + 1))
      × (zero_bank_number m < 2 ^ (code + 1))
unfolding high_bank_number zero_bank_number
bank_bounds code m v = ground (
  arith,
  high_bank_at code (length m.rom) m.rom_bank m.ram_bank,
  zero_bank_at code (length m.rom) m.ram_bank,
)

two-pow-suc : (code : ℕ) → 32768 * 2 ^ code ≡ 16384 * 2 ^ (code + 1)
two-pow-suc code = ground (arith, pow-suc 2 code)

-- A read of the ROM or RAM range of a valid controller returns a value.
pub read-total :
    (code : ℕ) (m : Mbc1) (address : ℕ)
    → IsValid code m
    → (address < 0x8000) ⊎ ((0xa000 ≤ address) × (address ≤ 0xbfff))
    → (byte : ℕ) × (read m address ≡ some byte)
unfolding read ram_address
read-total code m address v h =
    let bounds = bank_bounds code m v in
    elim (Bool-cases (leb address 0x3fff)) [
      | inl low ↦
          rw low
            (get_elem?-total m.rom _ (ground (arith, bounds, two-pow-suc code, one-le-pow code 2)))
      | inr high ↦ rw high (elim (Bool-cases (leb address 0x7fff)) [
        | inl bank ↦ rw bank (get_elem?-total m.rom _ (ground (arith, bounds, two-pow-suc code)))
        | inr ram ↦ rw ram (elim (Bool-cases m.ram_enabled) [
          | inl on ↦
              let (i, found, lt) =
                ram_address_bound code m address v on (ground arith) (ground arith) in
              let here : between 0xa000 0xbfff address ≡ true = ground arith in
              rw (here, on, found) (get_elem?-total m.ram i lt)
          | inr off ↦
              let here : between 0xa000 0xbfff address ≡ true = ground arith in
              rw (here, off) (0xff, refl)
        ])
      ])
    ]
