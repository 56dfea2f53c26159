-- ===== src/Cpu/Alu.antt =====
-- The arithmetic and logic of src/cpu/inst_impl.rs, on 8-bit and 16-bit registers.
pub mod Bounds
pub mod Timing
use zenith_gb.Base.{
  ℕ, ◌+◌, ◌-◌, ◌%◌, Bool, true, false, not, Option, none, some, bit_and, bit_or, u8, ◌>>>◌, ◌==◌,
  ◌!=◌, ltb, of_bool, wrapping_sub, ◌>>=◌, debug_assert,
}
use zenith_gb.Util.{set_high}
use zenith_gb.Cpu.{
  get_a, get_flag, set_flag, flag_c, flag_h, flag_n, flag_z, add_a8, sub_a8, and_a8, xor_a8, or_a8,
  cp_a8,
}
use zenith_gb.Cpu as Flagged
use zenith_gb.Cpu.Bus.{Bus}
use zenith_gb.Cpu.Operand.{OperandKind}
use zenith_gb.Cpu.Registers.{Cpu, read_r8, write_r8, read_r16, write_r16, set_znh}
use zenith_gb.Cpu.Access.{clock_consume_byte_from_pc, clock_consume_src_r8_imm8_hladdr}
use zenith_gb.Cpu.Load.{sign_extend, sp_flags}
use zenith_gb.Cpu.Rotate.{rrc, rr, rlc, rl}

-- `self` with its word AF replaced by what a flag routine leaves there.
abbrev pub with_af : (ℕ → ℕ) → Cpu → Cpu
with_af f cpu = record cpu { reg_af = f cpu.reg_af }

pub opcode_inc_r8 : ℕ → Cpu → Option Cpu
opcode_inc_r8 opcode cpu = do
  let dst_reg = bit_and (opcode >>> 3) 0x7
  _ ← debug_assert (dst_reg != 6)
  curr_val ← read_r8 dst_reg cpu
  let sum = u8 (curr_val + 1)
  write_r8 dst_reg sum (with_af (set_znh (sum == 0) false (bit_and sum 0xf == 0)) cpu)

pub opcode_dec_r8 : ℕ → Cpu → Option Cpu
opcode_dec_r8 opcode cpu = do
  let dst_reg = bit_and (opcode >>> 3) 0x7
  _ ← debug_assert (dst_reg != 6)
  curr_val ← read_r8 dst_reg cpu
  let sum = wrapping_sub 256 curr_val 1
  write_r8 dst_reg sum (with_af (set_znh (sum == 0) true (bit_and sum 0xf == 0xf)) cpu)

-- The end that `RLCA`, `RRCA`, `RLA` and `RRA` share.
abbrev rotate_a : (ℕ → ℕ → ℕ × ℕ) → Cpu → Cpu
rotate_a rotation cpu =
    let (result, af) = rotation (get_a cpu.reg_af) cpu.reg_af in
    record cpu { reg_af = set_flag flag_z false (set_high af result) }

pub opcode_rlca : ℕ → Cpu → Option Cpu
opcode_rlca opcode cpu = do _ ← debug_assert (opcode == 0x07); some (rotate_a rlc cpu)

pub opcode_rrca : ℕ → Cpu → Option Cpu
opcode_rrca opcode cpu = do _ ← debug_assert (opcode == 0x0f); some (rotate_a rrc cpu)

pub opcode_rla : ℕ → Cpu → Option Cpu
opcode_rla opcode cpu = do _ ← debug_assert (opcode == 0x17); some (rotate_a rl cpu)

pub opcode_rra : ℕ → Cpu → Option Cpu
opcode_rra opcode cpu = do _ ← debug_assert (opcode == 0x1f); some (rotate_a rr cpu)

pub opcode_cpl : Cpu → Cpu
opcode_cpl cpu =
    with_af (λ af. set_flag flag_h true (set_flag flag_n true (set_high af (255 - get_a af)))) cpu

pub opcode_scf : Cpu → Cpu
opcode_scf cpu =
    with_af (λ af. set_flag flag_h false (set_flag flag_n false (set_flag flag_c true af))) cpu

pub opcode_ccf : Cpu → Cpu
opcode_ccf cpu =
    with_af
      (λ af.
        set_flag flag_h false
          (set_flag flag_n false (set_flag flag_c (not (get_flag af flag_c)) af)))
      cpu

module _ {S : Type 0} (bus : Bus S) where
  open bus use {clock, clock_read, clock_write}

  pub opcode_inc_r16 : ℕ → Cpu → S → Option (Cpu × S)
  opcode_inc_r16 opcode cpu soc = do
    let dst_reg = bit_and (opcode >>> 4) 0x3
    curr_val ← read_r16 dst_reg cpu
    cpu ← write_r16 dst_reg ((curr_val + 1) % 65536) cpu
    soc ← clock soc
    some (cpu, soc)

  pub opcode_dec_r16 : ℕ → Cpu → S → Option (Cpu × S)
  opcode_dec_r16 opcode cpu soc = do
    let dst_reg = bit_and (opcode >>> 4) 0x3
    curr_val ← read_r16 dst_reg cpu
    cpu ← write_r16 dst_reg (wrapping_sub 65536 curr_val 1) cpu
    soc ← clock soc
    some (cpu, soc)

  pub opcode_inc_r16addr : ℕ → Cpu → S → Option (Cpu × S)
  opcode_inc_r16addr opcode cpu soc = do
    _ ← debug_assert (opcode == 0x34)
    (curr_val, soc) ← clock_read cpu.reg_hl soc
    let sum = u8 (curr_val + 1)
    let cpu = with_af (set_znh (sum == 0) false (bit_and sum 0xf == 0)) cpu
    soc ← clock_write cpu.reg_hl sum soc
    some (cpu, soc)

  pub opcode_dec_r16addr : ℕ → Cpu → S → Option (Cpu × S)
  opcode_dec_r16addr opcode cpu soc = do
    _ ← debug_assert (opcode == 0x35)
    (curr_val, soc) ← clock_read cpu.reg_hl soc
    let sum = wrapping_sub 256 curr_val 1
    let cpu = with_af (set_znh (sum == 0) true (bit_and sum 0xf == 0xf)) cpu
    soc ← clock_write cpu.reg_hl sum soc
    some (cpu, soc)

  pub opcode_add_hl_r16 : ℕ → Cpu → S → Option (Cpu × S)
  opcode_add_hl_r16 opcode cpu soc = do
    let src_reg = bit_and (opcode >>> 4) 0x3
    src_val ← read_r16 src_reg cpu
    let dst_val = cpu.reg_hl
    let sum = src_val + dst_val
    let half = ltb 0xfff (bit_and dst_val 0xfff + bit_and src_val 0xfff)
    let cpu =
        with_af
          (λ af. set_flag flag_c (ltb 0xffff sum) (set_flag flag_h half (set_flag flag_n false af)))
          cpu
    let cpu = record cpu { reg_hl = bit_and sum 0xffff }
    soc ← clock soc
    some (cpu, soc)

  pub opcode_add_sp_e8 : ℕ → Cpu → S → Option (Cpu × S)
  opcode_add_sp_e8 opcode cpu soc = do
    _ ← debug_assert (opcode == 0xe8)
    (e, cpu, soc) ← clock_consume_byte_from_pc bus cpu soc
    let sum = (cpu.reg_sp + sign_extend e) % 65536
    let cpu = with_af (sp_flags cpu.reg_sp e sum) cpu
    soc ← clock soc
    soc ← clock soc
    some (record cpu { reg_sp = sum }, soc)

  -- `opcode_add_r8_imm8_hladdr`, `opcode_adc`, `opcode_sub`, `opcode_sbc`, `opcode_and`,
  -- `opcode_xor`, `opcode_or` and `opcode_cp` differ in what they do with the operand alone.
  abbrev with_operand : (ℕ → ℕ → ℕ) → OperandKind → ℕ → Cpu → S → Option (Cpu × S)
  with_operand routine src opcode cpu soc = do
    (src_val, cpu, soc) ← clock_consume_src_r8_imm8_hladdr bus src opcode cpu soc
    some (with_af (λ af. routine af src_val) cpu, soc)

  pub opcode_add_r8_imm8_hladdr : OperandKind → ℕ → Cpu → S → Option (Cpu × S)
  opcode_add_r8_imm8_hladdr = with_operand (λ af val. add_a8 af val 0)

  pub opcode_adc : OperandKind → ℕ → Cpu → S → Option (Cpu × S)
  opcode_adc = with_operand (λ af val. add_a8 af val (of_bool (get_flag af flag_c)))

  pub opcode_sub : OperandKind → ℕ → Cpu → S → Option (Cpu × S)
  opcode_sub = with_operand (λ af val. sub_a8 af val 0)

  pub opcode_sbc : OperandKind → ℕ → Cpu → S → Option (Cpu × S)
  opcode_sbc = with_operand (λ af val. sub_a8 af val (of_bool (get_flag af flag_c)))

  pub opcode_and : OperandKind → ℕ → Cpu → S → Option (Cpu × S)
  opcode_and = with_operand and_a8

  pub opcode_xor : OperandKind → ℕ → Cpu → S → Option (Cpu × S)
  opcode_xor = with_operand xor_a8

  pub opcode_or : OperandKind → ℕ → Cpu → S → Option (Cpu × S)
  opcode_or = with_operand or_a8

  pub opcode_cp : OperandKind → ℕ → Cpu → S → Option (Cpu × S)
  opcode_cp = with_operand cp_a8
