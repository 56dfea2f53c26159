-- ===== src/Ppu/Memory/Banks.antt =====
-- The two banks of the video memory.
use zenith_gb.Base.{
  ℕ, ◌+◌, ◌*◌, ◌%◌, ◌<◌, ◌≡◌, ◌≢◌, Bool, true, false, not, some, ◌==◌, bit_and, of_bool, get_elem?,
  set, length, arith, set?-eq-set, get_elem?-set_self, get_elem?-set_ne, Bool-cases, ap, sym, ◌∙◌,
  inl, inr, Returns, if◌then◌else◌,
}
use zenith_gb.Base.Bits.{bit_and-mask}
use zenith_gb.Ppu.{Ppu}
use zenith_gb.Ppu.Memory.{vram_addr, vram_locked, read_vram, read_vram_banked, write_vram}

vram_addr_lem :
    (bank_1 : Bool) (addr : ℕ) → vram_addr bank_1 addr ≡ addr % 8192 + of_bool bank_1 * 8192
vram_addr_lem bank_1 addr = let mask = bit_and-mask 13 addr in omega (arith, mask)

vram_addr-masked :
    (bank_1 : Bool) (addr : ℕ) → vram_addr bank_1 (bit_and addr 0x1fff) ≡ vram_addr bank_1 addr
vram_addr-masked bank_1 addr =
    let outer = bit_and-mask 13 (bit_and addr 0x1fff) in
    let inner = bit_and-mask 13 addr in omega (arith, outer, inner)

vram_addr-lt : (bank_1 : Bool) (addr : ℕ) → vram_addr bank_1 addr < 0x4000
vram_addr-lt true addr = omega (arith, vram_addr_lem true addr)
vram_addr-lt false addr = omega (arith, vram_addr_lem false addr)

-- With a video memory of two banks that is not locked, a write returns. Then a read at an address
-- that agrees with it modulo 8192 gives the byte, any other read through the selected bank is
-- unchanged, and so is every read of the other bank.
pub write_vram-read_vram :
    (p : Ppu) (addr other byte : ℕ)
    → length p.vram ≡ 0x4000
    → vram_locked p.stat_mode ≡ false
    → Returns
        (λ (q : Ppu).
          (read_vram other q
            ≡ (if addr % 8192 == other % 8192 then some byte else read_vram other p))
          × (read_vram_banked (not p.vbk) other q ≡ read_vram_banked (not p.vbk) other p))
        (write_vram addr byte p)
unfolding read_vram write_vram read_vram_banked
write_vram-read_vram p addr other byte size free =
    let i = vram_addr p.vbk addr in
    let j = vram_addr p.vbk (bit_and other 0x1fff) in
    let i_lem = vram_addr_lem p.vbk addr in
    let j_lem : j ≡ other % 8192 + of_bool p.vbk * 8192 =
      vram_addr-masked p.vbk other ∙ vram_addr_lem p.vbk other in
    let lt : i < length p.vram = omega (arith, vram_addr-lt p.vbk addr, size) in
    let stored = set?-eq-set p.vram i byte lt in
    (
      record p { vram = set p.vram i byte },
      simp (free, stored),
      (
        simp free (elim (Bool-cases (addr % 8192 == other % 8192)) [
          | inl same ↦
              let eq : i ≡ j = ground (arith, i_lem, j_lem) in
              simp same (
                ap (λ k. get_elem? (set p.vram i byte) k) (sym eq)
                ∙ get_elem?-set_self p.vram i byte lt)
          | inr ne ↦
              let apart : i ≢ j = λ e. ground (arith, i_lem, j_lem, e) in
              simp (ne, get_elem?-set_ne p.vram i j byte apart)
        ]),
        get_elem?-set_ne p.vram i (vram_addr (not p.vbk) other) byte (banks_apart p.vbk addr other),
      ),
    )
  where
    banks_apart : (b : Bool) (addr other : ℕ) → vram_addr b addr ≢ vram_addr (not b) other
    banks_apart true addr other e =
        omega
          (arith, vram_addr_lem true addr, vram_addr_lem false other, vram_addr-lt false other, e)
    banks_apart false addr other e =
        omega (arith, vram_addr_lem false addr, vram_addr_lem true other, e)
