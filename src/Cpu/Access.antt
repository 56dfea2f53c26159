-- ===== src/Cpu/Access.antt =====
-- The clocked accesses of src/cpu/cpu.rs and src/cpu/inst_impl.rs: the bytes at PC, at HL and on
-- the stack, and the operands that may be a register or the byte at HL.
pub mod Timing
use zenith_gb.Base.{
  ℕ, Bool, true, false, Option, none, some, bit_and, ◌==◌, ◌!=◌, ltb, ◌>>=◌, debug_assert,
  if◌then◌else◌,
}
use zenith_gb.Util.{get_high, get_low, value}
use zenith_gb.Cpu.Bus.{Bus}
use zenith_gb.Cpu.Operand.{OperandKind, r8, r16_addr, imm8}
use zenith_gb.Cpu.Registers.{Cpu, read_r8, write_r8, dec_reg16, inc_reg16}

module _ {S : Type 0} (bus : Bus S) where
  open bus use {clock_read, clock_write}

  unfoldable pub clock_consume_byte_from_pc : Cpu → S → Option (ℕ × Cpu × S)
  clock_consume_byte_from_pc cpu soc = do
    (val, soc) ← clock_read cpu.reg_pc soc
    some (val, record cpu { reg_pc = inc_reg16 cpu.reg_pc }, soc)

  unfoldable pub clock_fetch : Cpu → S → Option (Cpu × S)
  clock_fetch cpu soc = do
    (opcode, cpu, soc) ← clock_consume_byte_from_pc cpu soc
    some (record cpu { opcode = opcode }, soc)

  unfoldable pub clock_push_u8 : ℕ → Cpu → S → Option (Cpu × S)
  clock_push_u8 val cpu soc = do
    soc ← clock_write (dec_reg16 cpu.reg_sp) val soc
    some (record cpu { reg_sp = dec_reg16 cpu.reg_sp }, soc)

  pub clock_pop_u16 : Cpu → S → Option (ℕ × Cpu × S)
  clock_pop_u16 cpu soc = do
    (lsb, soc) ← clock_read cpu.reg_sp soc
    (msb, soc) ← clock_read (inc_reg16 cpu.reg_sp) soc
    some (value msb lsb, record cpu { reg_sp = inc_reg16 (inc_reg16 cpu.reg_sp) }, soc)

  unfoldable pub clock_write_at_hl : ℕ → Cpu → S → Option S
  clock_write_at_hl val cpu soc = clock_write cpu.reg_hl val soc

  unfoldable pub clock_read_at_hl : Cpu → S → Option (ℕ × S)
  clock_read_at_hl cpu soc = clock_read cpu.reg_hl soc

  pub clock_read_r8_hladdr : ℕ → Cpu → S → Option (ℕ × S)
  clock_read_r8_hladdr src_decoded cpu soc =
      if src_decoded == 6
      then clock_read cpu.reg_hl soc
      else (read_r8 src_decoded cpu >>= (λ val. some (val, soc)))

  pub clock_write_r8_hladdr : (dst_decoded byte : ℕ) → Cpu → S → Option (Cpu × S)
  clock_write_r8_hladdr dst_decoded byte cpu soc =
      if dst_decoded == 6
      then (clock_write cpu.reg_hl byte soc >>= (λ soc. some (cpu, soc)))
      else (write_r8 dst_decoded byte cpu >>= (λ cpu. some (cpu, soc)))

  unfoldable pub clock_consume_src_r8_imm8_hladdr : OperandKind → ℕ → Cpu → S → Option (ℕ × Cpu × S)
  clock_consume_src_r8_imm8_hladdr r8 opcode cpu soc = do
    _ ← debug_assert (bit_and opcode 0x7 != 6)
    _ ← debug_assert (ltb (bit_and opcode 0x7) 8)
    val ← read_r8 (bit_and opcode 0x7) cpu
    some (val, cpu, soc)
  clock_consume_src_r8_imm8_hladdr r16_addr opcode cpu soc = do
    (val, soc) ← clock_read cpu.reg_hl soc
    some (val, cpu, soc)
  clock_consume_src_r8_imm8_hladdr imm8 opcode cpu soc = clock_consume_byte_from_pc cpu soc
  clock_consume_src_r8_imm8_hladdr _ opcode cpu soc = none
