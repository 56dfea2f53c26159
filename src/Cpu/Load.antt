-- ===== src/Cpu/Load.antt =====
-- The loads of src/cpu/inst_impl.rs.
--
-- An opcode's function takes the opcode and returns the processor and the bus after it. The
-- `debug_assert!` of the source are checked, in its order.
pub mod Bounds
pub mod Timing
pub mod Overflow
use zenith_gb.Base.{
  ℕ, ◌+◌, ◌%◌, Bool, true, false, Option, none, some, bit_and, bit_or, bit_xor, ◌>>>◌, ◌==◌, ◌!=◌,
  ltb, checked_add, ◌>>=◌, ◌||◌, debug_assert, if◌then◌else◌,
}
use zenith_gb.Util.{get_high, get_low, set_high, value}
use zenith_gb.Cpu.{get_a}
use zenith_gb.Cpu.Bus.{Bus}
use zenith_gb.Cpu.Registers.{
  Cpu, get_reg8, read_r8, write_r8, write_r16, dec_reg16, inc_reg16, set_znhc,
}
use zenith_gb.Cpu.Access.{clock_consume_byte_from_pc, clock_read_at_hl, clock_write_at_hl}

-- `e as i8` as a 16-bit word: the sign extends to the high byte.
abbrev pub sign_extend : ℕ → ℕ
sign_extend e = if ltb e 128 then e else e + 65280

-- `self.a().set(val)`
abbrev pub set_a : ℕ → Cpu → Cpu
set_a val cpu = record cpu { reg_af = set_high cpu.reg_af val }

-- AF after `SP + e`: the carries out of bits 3 and 7 show in bits 4 and 8 of the exclusive or, where
-- the wider signed integers of the source agree with 16-bit words.
abbrev pub sp_flags : (sp_val e sum : ℕ) → ℕ → ℕ
sp_flags sp_val e sum =
    let carries = bit_xor (bit_xor sp_val (sign_extend e)) sum in
    set_znhc false false (bit_and carries 0x10 == 0x10) (bit_and carries 0x100 == 0x100)

-- The opcodes that two functions expect, as their assertions list them.
abbrev pub is_ld_r8_hladdr : ℕ → Bool
is_ld_r8_hladdr opcode =
    opcode == 0x46
    || opcode == 0x4e
    || opcode == 0x56
    || opcode == 0x5e
    || opcode == 0x66
    || opcode == 0x6e
    || opcode == 0x7e

abbrev pub is_hladdr_r8 : ℕ → Bool
is_hladdr_r8 opcode =
    opcode == 0x70
    || opcode == 0x71
    || opcode == 0x72
    || opcode == 0x73
    || opcode == 0x74
    || opcode == 0x75
    || opcode == 0x77

pub opcode_ld_r8_r8 : ℕ → Cpu → Option Cpu
opcode_ld_r8_r8 opcode cpu = do
  let src_reg = bit_and opcode 0x7
  let dst_reg = bit_and (opcode >>> 3) 0x7
  val ← read_r8 src_reg cpu
  _ ← debug_assert (dst_reg != 6)
  _ ← debug_assert (src_reg != 6)
  write_r8 dst_reg val cpu

module _ {S : Type 0} (bus : Bus S) where
  open bus use {clock, clock_read, clock_write}

  pub opcode_ld_r8_imm8 : ℕ → Cpu → S → Option (Cpu × S)
  opcode_ld_r8_imm8 opcode cpu soc = do
    let dst_reg = bit_and (opcode >>> 3) 0x7
    (n8, cpu, soc) ← clock_consume_byte_from_pc bus cpu soc
    _ ← debug_assert (dst_reg != 6)
    cpu ← write_r8 dst_reg n8 cpu
    some (cpu, soc)

  pub opcode_ld_a_bcaddr : ℕ → Cpu → S → Option (Cpu × S)
  opcode_ld_a_bcaddr opcode cpu soc = do
    _ ← debug_assert (opcode == 0x0a)
    (val, soc) ← clock_read cpu.reg_bc soc
    some (set_a val cpu, soc)

  pub opcode_ld_a_deaddr : ℕ → Cpu → S → Option (Cpu × S)
  opcode_ld_a_deaddr opcode cpu soc = do
    _ ← debug_assert (opcode == 0x1a)
    (val, soc) ← clock_read cpu.reg_de soc
    some (set_a val cpu, soc)

  pub opcode_ld_a_hliaddr : ℕ → Cpu → S → Option (Cpu × S)
  opcode_ld_a_hliaddr opcode cpu soc = do
    _ ← debug_assert (opcode == 0x2a)
    (val, soc) ← clock_read cpu.reg_hl soc
    let cpu = set_a val cpu
    some (record cpu { reg_hl = inc_reg16 cpu.reg_hl }, soc)

  pub opcode_ld_a_hldaddr : ℕ → Cpu → S → Option (Cpu × S)
  opcode_ld_a_hldaddr opcode cpu soc = do
    _ ← debug_assert (opcode == 0x3a)
    (val, soc) ← clock_read cpu.reg_hl soc
    let cpu = set_a val cpu
    some (record cpu { reg_hl = dec_reg16 cpu.reg_hl }, soc)

  pub opcode_ld_r8_hladdr : ℕ → Cpu → S → Option (Cpu × S)
  unfolding clock_read_at_hl
  opcode_ld_r8_hladdr opcode cpu soc = do
    _ ← debug_assert (is_ld_r8_hladdr opcode)
    _ ← debug_assert (bit_and opcode 0x7 == 6)
    let dst_reg = bit_and (opcode >>> 3) 0x7
    (val, soc) ← clock_read_at_hl bus cpu soc
    _ ← debug_assert (dst_reg != 6)
    cpu ← write_r8 dst_reg val cpu
    some (cpu, soc)

  pub opcode_ld_a_imm16addr : ℕ → Cpu → S → Option (Cpu × S)
  opcode_ld_a_imm16addr opcode cpu soc = do
    _ ← debug_assert (opcode == 0xfa)
    (lsb, cpu, soc) ← clock_consume_byte_from_pc bus cpu soc
    (msb, cpu, soc) ← clock_consume_byte_from_pc bus cpu soc
    (val, soc) ← clock_read (value msb lsb) soc
    some (set_a val cpu, soc)

  pub opcode_ld_hl_spi : ℕ → Cpu → S → Option (Cpu × S)
  opcode_ld_hl_spi opcode cpu soc = do
    _ ← debug_assert (opcode == 0xf8)
    (e, cpu, soc) ← clock_consume_byte_from_pc bus cpu soc
    let sum = (cpu.reg_sp + sign_extend e) % 65536
    let cpu = record cpu { reg_af = sp_flags cpu.reg_sp e sum cpu.reg_af; reg_hl = sum }
    soc ← clock soc
    some (cpu, soc)

  pub opcode_ld_sp_hl : ℕ → Cpu → S → Option (Cpu × S)
  opcode_ld_sp_hl opcode cpu soc = do
    _ ← debug_assert (opcode == 0xf9)
    let cpu = record cpu { reg_sp = cpu.reg_hl }
    soc ← clock soc
    some (cpu, soc)

  pub opcode_ld_r16_imm16 : ℕ → Cpu → S → Option (Cpu × S)
  opcode_ld_r16_imm16 opcode cpu soc = do
    _ ← debug_assert (opcode == 0x01 || opcode == 0x11 || opcode == 0x21 || opcode == 0x31)
    let dst_reg = bit_and (opcode >>> 4) 0x3
    (lsb, cpu, soc) ← clock_consume_byte_from_pc bus cpu soc
    (msb, cpu, soc) ← clock_consume_byte_from_pc bus cpu soc
    cpu ← write_r16 dst_reg (value msb lsb) cpu
    some (cpu, soc)

  pub opcode_ld_hliaddr_a : ℕ → Cpu → S → Option (Cpu × S)
  opcode_ld_hliaddr_a opcode cpu soc = do
    _ ← debug_assert (opcode == 0x22)
    soc ← clock_write cpu.reg_hl (get_a cpu.reg_af) soc
    some (record cpu { reg_hl = inc_reg16 cpu.reg_hl }, soc)

  pub opcode_ld_hldaddr_a : ℕ → Cpu → S → Option (Cpu × S)
  opcode_ld_hldaddr_a opcode cpu soc = do
    _ ← debug_assert (opcode == 0x32)
    soc ← clock_write cpu.reg_hl (get_a cpu.reg_af) soc
    some (record cpu { reg_hl = dec_reg16 cpu.reg_hl }, soc)

  pub opcode_ld_bcaddr_a : ℕ → Cpu → S → Option (Cpu × S)
  opcode_ld_bcaddr_a opcode cpu soc = do
    _ ← debug_assert (opcode == 0x02)
    soc ← clock_write cpu.reg_bc (get_a cpu.reg_af) soc
    some (cpu, soc)

  pub opcode_ld_deaddr_a : ℕ → Cpu → S → Option (Cpu × S)
  opcode_ld_deaddr_a opcode cpu soc = do
    _ ← debug_assert (opcode == 0x12)
    soc ← clock_write cpu.reg_de (get_a cpu.reg_af) soc
    some (cpu, soc)

  pub opcode_hladdr_r8 : ℕ → Cpu → S → Option (Cpu × S)
  opcode_hladdr_r8 opcode cpu soc = do
    _ ← debug_assert (is_hladdr_r8 opcode)
    let src_reg = bit_and opcode 0x7
    val ← read_r8 src_reg cpu
    _ ← debug_assert (bit_and (opcode >>> 3) 0x7 == 6)
    _ ← debug_assert (src_reg != 6)
    soc ← clock_write cpu.reg_hl val soc
    some (cpu, soc)

  -- `addr + 1` on a `u16`.
  pub opcode_imm16addr_r16 : ℕ → Cpu → S → Option (Cpu × S)
  opcode_imm16addr_r16 opcode cpu soc = do
    _ ← debug_assert (opcode == 0x08)
    (lsb, cpu, soc) ← clock_consume_byte_from_pc bus cpu soc
    (msb, cpu, soc) ← clock_consume_byte_from_pc bus cpu soc
    let addr = value msb lsb
    soc ← clock_write addr (get_low cpu.reg_sp) soc
    next ← checked_add 65536 addr 1
    soc ← clock_write next (get_high cpu.reg_sp) soc
    some (cpu, soc)

  pub opcode_hladdr_imm8 : ℕ → Cpu → S → Option (Cpu × S)
  unfolding clock_write_at_hl
  opcode_hladdr_imm8 opcode cpu soc = do
    _ ← debug_assert (opcode == 0x36)
    (val, cpu, soc) ← clock_consume_byte_from_pc bus cpu soc
    soc ← clock_write_at_hl bus val cpu soc
    some (cpu, soc)

  pub opcode_r8addr_a : ℕ → Cpu → S → Option (Cpu × S)
  opcode_r8addr_a opcode cpu soc = do
    _ ← debug_assert (opcode == 0xe2)
    soc ← clock_write (bit_or (get_reg8 false cpu.reg_bc) 0xff00) (get_a cpu.reg_af) soc
    some (cpu, soc)

  pub opcode_imm16addr_a : ℕ → Cpu → S → Option (Cpu × S)
  opcode_imm16addr_a opcode cpu soc = do
    _ ← debug_assert (opcode == 0xea)
    (lsb, cpu, soc) ← clock_consume_byte_from_pc bus cpu soc
    (msb, cpu, soc) ← clock_consume_byte_from_pc bus cpu soc
    soc ← clock_write (value msb lsb) (get_a cpu.reg_af) soc
    some (cpu, soc)

  pub opcode_r8_c : ℕ → Cpu → S → Option (Cpu × S)
  opcode_r8_c opcode cpu soc = do
    _ ← debug_assert (opcode == 0xf2)
    (val, soc) ← clock_read (bit_or (get_reg8 false cpu.reg_bc) 0xff00) soc
    some (set_a val cpu, soc)

  pub opcode_ldh_r8addr_a : ℕ → Cpu → S → Option (Cpu × S)
  opcode_ldh_r8addr_a opcode cpu soc = do
    _ ← debug_assert (opcode == 0xe0)
    (addr_u8, cpu, soc) ← clock_consume_byte_from_pc bus cpu soc
    soc ← clock_write (bit_or addr_u8 0xff00) (get_a cpu.reg_af) soc
    some (cpu, soc)

  pub opcode_ldh_a_r8addr : ℕ → Cpu → S → Option (Cpu × S)
  opcode_ldh_a_r8addr opcode cpu soc = do
    _ ← debug_assert (opcode == 0xf0)
    (addr_u8, cpu, soc) ← clock_consume_byte_from_pc bus cpu soc
    (val, soc) ← clock_read (bit_or addr_u8 0xff00) soc
    some (set_a val cpu, soc)
