-- ===== src/Mbc/Ranges.antt =====
-- The tests of `match address` for an address in the RAM range or in the banked half of the ROM.
use zenith_gb.Base.{ℕ, ◌≤◌, ◌<◌, ◌≡◌, true, false, leb, arith}

pub in_ram :
    (address : ℕ)
    → 0xa000 ≤ address
    → address ≤ 0xbfff
    → (leb address 0x3fff ≡ false)
      × (leb address 0x7fff ≡ false)
      × (leb 0xa000 address ≡ true)
      × (leb address 0xbfff ≡ true)
in_ram address lo hi = ground arith

pub in_high_rom :
    (address : ℕ)
    → 0x4000 ≤ address
    → address < 0x8000
    → (leb address 0x3fff ≡ false) × (leb address 0x7fff ≡ true)
in_high_rom address lo hi = ground arith
