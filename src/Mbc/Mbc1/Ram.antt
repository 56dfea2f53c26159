-- ===== src/Mbc/Mbc1/Ram.antt =====
-- The RAM of an MBC1, and what loading a cartridge sets up.
use zenith_gb.Base.{
  sym, length-set, ℕ, ◌≤◌, ◌≡◌, ◌≢◌, refl, ◌∙◌, ap, true, false, some, get_elem?, set, set?, ◌>>=◌,
  set?-eq-set, get_elem?-set_self, get_elem?-set_ne,
}
use zenith_gb.Mbc.Ranges.{in_ram}
use zenith_gb.Mbc.Mbc1.{Mbc1, ram_address, read, write}
use zenith_gb.Mbc.Mbc1.Bounds.{IsValid, ram_address_bound}

read-ram :
    (m : Mbc1) (address : ℕ)
    → m.ram_enabled ≡ true
    → 0xa000 ≤ address
    → address ≤ 0xbfff
    → read m address ≡ (ram_address m address >>= λ i. get_elem? m.ram i)
unfolding read
read-ram m address on lo hi = let (a, b, c, d) = in_ram address lo hi in simp (a, b, c, d, on)

write-ram :
    (m : Mbc1) (address byte : ℕ)
    → m.ram_enabled ≡ true
    → 0xa000 ≤ address
    → address ≤ 0xbfff
    → write m address byte
      ≡ (ram_address m address >>= λ i. set? m.ram i byte >>= λ ram. some (record m { ram = ram }))
unfolding write
write-ram m address byte on lo hi = let (a, b, c, d) = in_ram address lo hi in simp (a, b, c, d, on)

-- A cell that is written keeps its address.
ram_address-set :
    (m : Mbc1) (address i byte : ℕ)
    → ram_address (record m { ram = set m.ram i byte }) address ≡ ram_address m address
unfolding ram_address
ram_address-set m address i byte = rw (length-set m.ram i byte)

-- With the RAM of a valid controller enabled, a write to the RAM range is read back at its address,
-- and leaves what is read at every address of the range that maps to another cell.
pub read-write :
    (code : ℕ) (m : Mbc1) (address other byte : ℕ)
    → IsValid code m
    → m.ram_enabled ≡ true
    → 0xa000 ≤ address
    → address ≤ 0xbfff
    → 0xa000 ≤ other
    → other ≤ 0xbfff
    → ram_address m other ≢ ram_address m address
    → (m' : Mbc1) × (write m address byte ≡ some m')
      × (read m' address ≡ some byte)
      × (read m' other ≡ read m other)
read-write code m address other byte v on lo hi lo' hi' ne =
    let (i, found, lt) = ram_address_bound code m address v on lo hi in
    let (j, found', lt') = ram_address_bound code m other v on lo' hi' in
    let m' : Mbc1 = record m { ram = set m.ram i byte } in
    let apart : i ≢ j = λ e. ne (found' ∙ sym (ap some e) ∙ sym found) in
    (
      m',
      write-ram m address byte on lo hi ∙ rw (found, set?-eq-set m.ram i byte lt),
      read-ram m' address on lo hi
          ∙ rw (ram_address-set m address i byte, found) (get_elem?-set_self m.ram i byte lt),
      rw
          (
            read-ram m' other on lo' hi',
            read-ram m other on lo' hi',
            ram_address-set m other i byte,
            found',
          )
          (get_elem?-set_ne m.ram i j byte apart),
    )

-- With the RAM disabled, a write to its range changes nothing and every read of it gives 0xff.
pub disabled_ram :
    (m : Mbc1) (address byte : ℕ)
    → m.ram_enabled ≡ false
    → 0xa000 ≤ address
    → address ≤ 0xbfff
    → (write m address byte ≡ some m) × (read m address ≡ some 0xff)
unfolding read write
disabled_ram m address byte off lo hi =
    let (a, b, c, d) = in_ram address lo hi in simp (a, b, c, d, off) (refl, refl)
