-- ===== src/Cpu/Load/Bounds.antt =====
-- Bytes, words and register numbers that the loads and the other opcodes use keep to their ranges.
use zenith_gb.Base.{
  ℕ, ◌<◌, ◌≡◌, true, false, bit_and, bit_or, ◌>>>◌, ◌==◌, ◌!=◌, arith, Returns, >>=-Returns,
  debug_assert-Returns,
}
use zenith_gb.Base.Bits.{bit_and-le, bit_or-lt_two_pow}
use zenith_gb.Util.{value}
use zenith_gb.Util.Bytes.{value_lem, set_high_lem}
use zenith_gb.Cpu.{get_a}
use zenith_gb.Cpu.Registers.{Cpu}
use zenith_gb.Cpu.Registers.Bounds.{IsReady, IsReady-af, read_r8_lem, write_r8_lem}
use zenith_gb.Cpu.Load.{set_a, opcode_ld_r8_r8}

pub get_a-lt : (af : ℕ) → get_a af < 256
unfolding get_a
get_a-lt af = omega arith

pub value-lt : (msb lsb : ℕ) → msb < 256 → lsb < 256 → value msb lsb < 65536
value-lt msb lsb hm hl = omega (arith, value_lem msb lsb hl)

pub high_page-lt : (low : ℕ) → low < 256 → bit_or low 0xff00 < 65536
high_page-lt low lt = bit_or-lt_two_pow 16 low 0xff00 (omega arith) (omega arith)

-- The register numbers of an opcode.
pub low_bits-lt : (opcode : ℕ) → bit_and opcode 0x7 < 8
low_bits-lt opcode = omega (arith, (bit_and-le opcode 0x7).1)

pub mid_bits-lt : (opcode : ℕ) → bit_and (opcode >>> 3) 0x7 < 8
mid_bits-lt opcode = omega (arith, (bit_and-le (opcode >>> 3) 0x7).1)

pub pair_bits-lt : (opcode : ℕ) → bit_and (opcode >>> 4) 0x3 < 4
pair_bits-lt opcode = omega (arith, (bit_and-le (opcode >>> 4) 0x3).1)

pub ne_eq : (a b : ℕ) → (a == b) ≡ false → (a != b) ≡ true
ne_eq a b h = ground arith

pub set_a-IsReady : (val : ℕ) (cpu : Cpu) → val < 256 → IsReady cpu → IsReady (set_a val cpu)
set_a-IsReady val cpu lt ready =
    IsReady-af cpu _ (omega (arith, set_high_lem cpu.reg_af val lt)) ready

pub ld_r8_r8-IsReady :
    (opcode : ℕ) (cpu : Cpu)
    → (bit_and opcode 0x7 == 6) ≡ false
    → (bit_and (opcode >>> 3) 0x7 == 6) ≡ false
    → IsReady cpu
    → Returns IsReady (opcode_ld_r8_r8 opcode cpu)
unfolding opcode_ld_r8_r8
ld_r8_r8-IsReady opcode cpu src dst ready =
    >>=-Returns (read_r8_lem (bit_and opcode 0x7) cpu (low_bits-lt opcode) src) (λ val lt.
      debug_assert-Returns (ne_eq _ 6 dst) (
        debug_assert-Returns (ne_eq _ 6 src)
          (write_r8_lem (bit_and (opcode >>> 3) 0x7) val cpu (mid_bits-lt opcode) dst lt ready)))
