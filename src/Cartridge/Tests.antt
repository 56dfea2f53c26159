-- ===== src/Cartridge/Tests.antt =====
-- A header of zeros but for the checksum byte 0xe7, which cancels the 25 subtracted ones.
use zenith_gb.Base.{
  ℕ, ◌+◌, ◌%◌, ◌≡◌, ◌↔◌, refl, List, [], ◌∷◌, ◌++◌, some, get_elem?, replicate, arith,
}
use zenith_gb.Cartridge.{CartridgeHeader, header_new}
use zenith_gb.Cartridge.Checksum.{sum_bytes, header_new-accepts_iff}

abbrev blank : List ℕ
blank = replicate 0x14d 0 ++ 0xe7 ∷ 0 ∷ 0 ∷ []

header_new-accepts_iff_example :
    ((hdr : CartridgeHeader) × (header_new blank ≡ some hdr)
      × (some hdr.cart_type ≡ get_elem? blank 0x147)
      × (some hdr.rom_size ≡ get_elem? blank 0x148)
      × (some hdr.ram_size ≡ get_elem? blank 0x149))
    ↔ ((0xe7 + sum_bytes blank 0x134 25 + 25) % 256 ≡ 0)
header_new-accepts_iff_example = header_new-accepts_iff blank 0xe7 (omega arith) (omega arith) refl

-- It is accepted.
sum_bytes-blank : (0xe7 + sum_bytes blank 0x134 25 + 25) % 256 ≡ 0
unfolding sum_bytes
sum_bytes-blank = refl
