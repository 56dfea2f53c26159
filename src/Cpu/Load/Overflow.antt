-- ===== src/Cpu/Load/Overflow.antt =====
-- `LD [a16] SP` and the end of the address space.
use zenith_gb.Base.{
  ℕ, ◌+◌, ◌<◌, ◌≡◌, refl, Option, none, some, arith, checked_add, ◌>>=◌, Returns, >>=-Returns,
  Returns-some, Returns-of,
}
use zenith_gb.Util.{get_low, value}
use zenith_gb.Util.Bytes.{get_high-lt, get_low-lt}
use zenith_gb.Cpu.Bus.{Bus}
use zenith_gb.Cpu.Registers.{Cpu}
use zenith_gb.Cpu.Access.{clock_consume_byte_from_pc}
use zenith_gb.Cpu.Access.Timing.{Ran, write-Ran, consume-Ran}
use zenith_gb.Cpu.Load.{opcode_imm16addr_r16}

>>=-none {ℓ κ} : {A : Type ℓ} {B : Type κ} (m : Option A) → ◌>>=◌ {B = B} m (λ a. none) ≡ none
>>=-none none = refl
>>=-none (some a) = refl

module _ {S : Type 0} (bus : Bus S) (start : S) (cpu : Cpu) (soc : S)
    (ran : Ran bus start 0 cpu soc) (lsb msb : ℕ) (cpu1 cpu2 : Cpu) (soc1 soc2 : S)
    (read_lsb : clock_consume_byte_from_pc bus cpu soc ≡ some (lsb, cpu1, soc1))
    (read_msb : clock_consume_byte_from_pc bus cpu1 soc1 ≡ some (msb, cpu2, soc2)) where
  -- On registers within their widths and a valid bus, with the address 0xFFFF behind the opcode,
  -- `LD [a16] SP` ends in a panic: `addr + 1` overflows.
  pub imm16addr_r16-panics : value msb lsb ≡ 0xffff → opcode_imm16addr_r16 bus 0x08 cpu soc ≡ none
  unfolding opcode_imm16addr_r16
  imm16addr_r16-panics e =
      simp (read_lsb)
        (simp (read_msb) (simp e (>>=-none (bus.clock_write 0xffff (get_low cpu2.reg_sp) soc2))))

  -- With any other address behind the opcode, `LD [a16] SP` returns after four cycles.
  pub imm16addr_r16-Ran :
      value msb lsb < 0xffff
      → Returns (λ (p : Cpu × S). Ran bus start 4 p.0 p.1) (opcode_imm16addr_r16 bus 0x08 cpu soc)
  unfolding opcode_imm16addr_r16
  imm16addr_r16-Ran lt =
      let (l_lt, ran1) =
        Returns-of (λ (p : ℕ × Cpu × S). (p.0 < 256) × Ran bus start 1 p.1 p.2) read_lsb
          (consume-Ran bus start 0 cpu soc ran) in
      let (m_lt, ran2) =
        Returns-of (λ (p : ℕ × Cpu × S). (p.0 < 256) × Ran bus start 2 p.1 p.2) read_msb
          (consume-Ran bus start 1 cpu1 soc1 ran1) in
      simp read_lsb (
        simp read_msb (
          >>=-Returns
            (write-Ran bus start 2 cpu2 soc2 ran2 (value msb lsb) _ (omega arith)
              (get_low-lt cpu2.reg_sp))
            (λ t r. >>=-Returns (next_address (value msb lsb) lt) (λ next next_lt.
              >>=-Returns (write-Ran bus start 3 cpu2 t r next _ next_lt (get_high-lt cpu2.reg_sp))
                (λ u v. Returns-some v)))))
    where
      next_address : (a : ℕ) → a < 0xffff → Returns (λ b. b < 65536) (checked_add 65536 a 1)
      next_address a h = (a + 1, ground arith, omega arith)
