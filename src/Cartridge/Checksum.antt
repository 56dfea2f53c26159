-- ===== src/Cartridge/Checksum.antt =====
-- What the header checksum accepts.
use zenith_gb.Base.{
  ◌≢◌, le→leb, ◌↔◌, ℕ, zero, suc, ◌+◌, ◌-◌, ◌%◌, ◌≤◌, ◌<◌, ◌≡◌, refl, true, false, List, [], ◌∷◌,
  none, some, ◌!=◌, length, get_elem?, get_elem?-total, inl, inr, arith, Bool-cases,
}
use zenith_gb.Cartridge.{CartridgeHeader, checksum_loop, header_new}

-- The sum of `count` bytes from `address` on; a byte that is missing counts as 0.
unfoldable pub sum_bytes : List ℕ → ℕ → ℕ → ℕ
sum_bytes bytes address zero = 0
sum_bytes bytes address (suc count) =
    elim (get_elem? bytes address) [ none ↦ 0 | some b ↦ b ] + sum_bytes bytes (address + 1) count

abbrev pub IsBytes : List ℕ → Type 0
IsBytes [] = Unit
IsBytes (b ∷ bs) = (b < 256) × IsBytes bs

pub IsBytes-get_elem? : (bs : List ℕ) (i b : ℕ) → IsBytes bs → get_elem? bs i ≡ some b → b < 256
IsBytes-get_elem? [] i b h e = cc
IsBytes-get_elem? (x ∷ xs) zero b h e = ground arith
IsBytes-get_elem? (x ∷ xs) (suc i) b h e = IsBytes-get_elem? xs i b h.1 e

-- The loop's result, the bytes and their number cancel modulo 256.
pub checksum_loop_lem :
    (bytes : List ℕ) (count address acc : ℕ)
    → IsBytes bytes
    → acc < 256
    → address + count ≤ length bytes
    → (r : ℕ) × (checksum_loop bytes address count acc ≡ some r)
      × (r < 256)
      × ((r + sum_bytes bytes address count + count) % 256 ≡ acc % 256)
unfolding checksum_loop sum_bytes
checksum_loop_lem bytes zero address acc hb ha h = (acc, refl, ha, omega arith)
checksum_loop_lem bytes (suc count) address acc hb ha h =
    let (b, found) = get_elem?-total bytes address (omega arith) in
    let small = IsBytes-get_elem? bytes address b hb found in
    let (r, runs, lt, sum) =
      checksum_loop_lem bytes count (address + 1) (((acc + 256 - b) % 256 + 256 - 1) % 256) hb
        (omega arith) (omega arith) in
    (r, rw found runs, lt, rw found (omega arith))

checksum_eq :
    (check r s : ℕ) → (r + s + 25) % 256 ≡ 0 → (r != check) ≡ false → (check + s + 25) % 256 ≡ 0
checksum_eq check r s h e = ground arith

checksum_ne :
    (check r s : ℕ)
    → check < 256
    → r < 256
    → (r + s + 25) % 256 ≡ 0
    → (r != check) ≡ true
    → (check + s + 25) % 256 ≢ 0
checksum_ne check r s hc hr h e q = ground arith

-- With bytes for the whole header, the file is accepted exactly when its header checksum, the sum
-- of the bytes 0x134 to 0x14c and their number 25 cancel modulo 256; the accepted header holds the
-- type and size codes of the bytes 0x147, 0x148 and 0x149.
pub header_new-accepts_iff :
    (bytes : List ℕ) (check : ℕ)
    → IsBytes bytes
    → 0x150 ≤ length bytes
    → get_elem? bytes 0x14d ≡ some check
    → ((hdr : CartridgeHeader) × (header_new bytes ≡ some hdr)
        × (some hdr.cart_type ≡ get_elem? bytes 0x147)
        × (some hdr.rom_size ≡ get_elem? bytes 0x148)
        × (some hdr.ram_size ≡ get_elem? bytes 0x149))
      ↔ ((check + sum_bytes bytes 0x134 25 + 25) % 256 ≡ 0)
unfolding header_new
header_new-accepts_iff bytes check hb h e =
    let (c143, e143) = get_elem?-total bytes 0x143 (omega arith) in
    let (c146, e146) = get_elem?-total bytes 0x146 (omega arith) in
    let (c147, e147) = get_elem?-total bytes 0x147 (omega arith) in
    let (c148, e148) = get_elem?-total bytes 0x148 (omega arith) in
    let (c149, e149) = get_elem?-total bytes 0x149 (omega arith) in
    let (c14a, e14a) = get_elem?-total bytes 0x14a (omega arith) in
    let (c14b, e14b) = get_elem?-total bytes 0x14b (omega arith) in
    let (c14c, e14c) = get_elem?-total bytes 0x14c (omega arith) in
    let (r, runs, lt, sum) = checksum_loop_lem bytes 25 0x134 0 hb (omega arith) (omega arith) in
    let byte = IsBytes-get_elem? bytes 0x14d check hb e in
    let s104 = le→leb 0x104 (length bytes) (omega arith) in
    let s134 = le→leb 0x134 (length bytes) (omega arith) in
    let s144 = le→leb 0x144 (length bytes) (omega arith) in
    let s146 = le→leb 0x146 (length bytes) (omega arith) in
    let s150 = le→leb 0x150 (length bytes) (omega arith) in
    simp (s104, s134, s144, s146, s150, e143, e146, e147, e148, e149, e14a, e14b, e14c, e, runs)
      (elim (Bool-cases (r != check)) [
        | inl bad ↦ rw bad ((λ p. cc (p.1)), λ q. absurd (checksum_ne _ _ _ byte lt sum bad q))
        | inr good ↦ rw good ((λ p. checksum_eq _ _ _ sum good), λ q. (_, refl, refl, refl, refl))
      ])
