-- ===== src/Cpu/Dispatch.antt =====
-- The functions that the instruction tables of src/cpu/inst_def.rs point to.
--
-- The debugger's channel of `opcode_ld_b_b` is left out, so that it does nothing. The opcodes that
-- do not exist, and the prefix, are a panic.
pub mod Costs
pub mod Cycles
use zenith_gb.Base.{ℕ, Option, none, some, ◌>>=◌}
use zenith_gb.Cpu.{opcode_daa}
use zenith_gb.Cpu.Bus.{Bus}
use zenith_gb.Cpu.Operand.{OperandKind}
use zenith_gb.Cpu.Registers.{Cpu}
use zenith_gb.Cpu.Load.{
  opcode_ld_r8_r8, opcode_ld_r8_imm8, opcode_ld_a_bcaddr, opcode_ld_a_deaddr, opcode_ld_a_hliaddr,
  opcode_ld_a_hldaddr, opcode_ld_r8_hladdr, opcode_ld_a_imm16addr, opcode_ld_hl_spi,
  opcode_ld_sp_hl, opcode_ld_r16_imm16, opcode_ld_hliaddr_a, opcode_ld_hldaddr_a,
  opcode_ld_bcaddr_a, opcode_ld_deaddr_a, opcode_hladdr_r8, opcode_imm16addr_r16,
  opcode_hladdr_imm8, opcode_r8addr_a, opcode_imm16addr_a, opcode_r8_c, opcode_ldh_r8addr_a,
  opcode_ldh_a_r8addr,
}
use zenith_gb.Cpu.Alu.{
  with_af, opcode_inc_r8, opcode_dec_r8, opcode_rlca, opcode_rrca, opcode_rla, opcode_rra,
  opcode_cpl, opcode_scf, opcode_ccf, opcode_inc_r16, opcode_dec_r16, opcode_inc_r16addr,
  opcode_dec_r16addr, opcode_add_hl_r16, opcode_add_sp_e8, opcode_add_r8_imm8_hladdr, opcode_adc,
  opcode_sub, opcode_sbc, opcode_and, opcode_xor, opcode_or, opcode_cp,
}
use zenith_gb.Cpu.Jump.{
  opcode_jp_hl, opcode_di, opcode_ei, opcode_stop, opcode_halt, opcode_jr_e8, opcode_jr_cc,
  opcode_ret, opcode_ret_cc, opcode_push, opcode_pop, opcode_jp_a16, opcode_jp_cc, opcode_call_a16,
  opcode_call_cc, opcode_rst, opcode_reti,
}
use zenith_gb.Cpu.Bitwise.{
  opcode_rlc, opcode_rrc, opcode_rl, opcode_rr, opcode_sla, opcode_sra, opcode_swap, opcode_srl,
  opcode_bit, opcode_res, opcode_set,
}
use zenith_gb.Cpu.Instruction.{
  OpcodeFn, Instruction, nop, ld_r16_imm16, ld_bcaddr_a, inc_r16, inc_r8, dec_r8, ld_r8_imm8, rlca,
  imm16addr_r16, add_hl_r16, ld_a_bcaddr, dec_r16, rrca, stop, ld_deaddr_a, rla, jr_e8, ld_a_deaddr,
  rra, jr_cc, ld_hliaddr_a, daa, ld_a_hliaddr, cpl, ld_hldaddr_a, inc_r16addr, dec_r16addr,
  hladdr_imm8, scf, ld_a_hldaddr, ccf, ld_b_b, ld_r8_r8, ld_r8_hladdr, hladdr_r8, halt,
  add_r8_imm8_hladdr, adc, sub, sbc, and, xor, or, cp, ret_cc, pop, jp_cc, jp_a16, call_cc, push,
  rst, ret, prefix, call_a16, illegal_d3, reti, illegal_db, illegal_dd, ldh_r8addr_a, r8addr_a,
  illegal_e3, illegal_e4, add_sp_e8, jp_hl, imm16addr_a, illegal_eb, illegal_ec, illegal_ed,
  ldh_a_r8addr, r8_c, di, illegal_f4, ld_hl_spi, ld_sp_hl, ld_a_imm16addr, ei, illegal_fc,
  illegal_fd, rlc, rrc, rl, rr, sla, sra, swap, srl, bit, res, set,
}

unfoldable pub opcode_nop : Cpu → Cpu
opcode_nop cpu = cpu

pub opcode_ld_b_b : Cpu → Cpu
opcode_ld_b_b cpu = cpu

-- An opcode that works on the registers alone.
abbrev pub on_registers {ℓ} : {S : Type ℓ} → Option Cpu → S → Option (Cpu × S)
on_registers result soc = result >>= (λ cpu. some (cpu, soc))

module _ {S : Type 0} (bus : Bus S) where
  abbrev pub call_fn : OpcodeFn → OperandKind → ℕ → Cpu → S → Option (Cpu × S)
  call_fn nop src opcode cpu soc = some (opcode_nop cpu, soc)
  call_fn ld_r16_imm16 src opcode cpu soc = opcode_ld_r16_imm16 bus opcode cpu soc
  call_fn ld_bcaddr_a src opcode cpu soc = opcode_ld_bcaddr_a bus opcode cpu soc
  call_fn inc_r16 src opcode cpu soc = opcode_inc_r16 bus opcode cpu soc
  call_fn inc_r8 src opcode cpu soc = on_registers (opcode_inc_r8 opcode cpu) soc
  call_fn dec_r8 src opcode cpu soc = on_registers (opcode_dec_r8 opcode cpu) soc
  call_fn ld_r8_imm8 src opcode cpu soc = opcode_ld_r8_imm8 bus opcode cpu soc
  call_fn rlca src opcode cpu soc = on_registers (opcode_rlca opcode cpu) soc
  call_fn imm16addr_r16 src opcode cpu soc = opcode_imm16addr_r16 bus opcode cpu soc
  call_fn add_hl_r16 src opcode cpu soc = opcode_add_hl_r16 bus opcode cpu soc
  call_fn ld_a_bcaddr src opcode cpu soc = opcode_ld_a_bcaddr bus opcode cpu soc
  call_fn dec_r16 src opcode cpu soc = opcode_dec_r16 bus opcode cpu soc
  call_fn rrca src opcode cpu soc = on_registers (opcode_rrca opcode cpu) soc
  call_fn stop src opcode cpu soc = opcode_stop bus opcode cpu soc
  call_fn ld_deaddr_a src opcode cpu soc = opcode_ld_deaddr_a bus opcode cpu soc
  call_fn rla src opcode cpu soc = on_registers (opcode_rla opcode cpu) soc
  call_fn jr_e8 src opcode cpu soc = opcode_jr_e8 bus cpu soc
  call_fn ld_a_deaddr src opcode cpu soc = opcode_ld_a_deaddr bus opcode cpu soc
  call_fn rra src opcode cpu soc = on_registers (opcode_rra opcode cpu) soc
  call_fn jr_cc src opcode cpu soc = opcode_jr_cc bus opcode cpu soc
  call_fn ld_hliaddr_a src opcode cpu soc = opcode_ld_hliaddr_a bus opcode cpu soc
  call_fn daa src opcode cpu soc = some (with_af opcode_daa cpu, soc)
  call_fn ld_a_hliaddr src opcode cpu soc = opcode_ld_a_hliaddr bus opcode cpu soc
  call_fn cpl src opcode cpu soc = some (opcode_cpl cpu, soc)
  call_fn ld_hldaddr_a src opcode cpu soc = opcode_ld_hldaddr_a bus opcode cpu soc
  call_fn inc_r16addr src opcode cpu soc = opcode_inc_r16addr bus opcode cpu soc
  call_fn dec_r16addr src opcode cpu soc = opcode_dec_r16addr bus opcode cpu soc
  call_fn hladdr_imm8 src opcode cpu soc = opcode_hladdr_imm8 bus opcode cpu soc
  call_fn scf src opcode cpu soc = some (opcode_scf cpu, soc)
  call_fn ld_a_hldaddr src opcode cpu soc = opcode_ld_a_hldaddr bus opcode cpu soc
  call_fn ccf src opcode cpu soc = some (opcode_ccf cpu, soc)
  call_fn ld_b_b src opcode cpu soc = some (opcode_ld_b_b cpu, soc)
  call_fn ld_r8_r8 src opcode cpu soc = on_registers (opcode_ld_r8_r8 opcode cpu) soc
  call_fn ld_r8_hladdr src opcode cpu soc = opcode_ld_r8_hladdr bus opcode cpu soc
  call_fn hladdr_r8 src opcode cpu soc = opcode_hladdr_r8 bus opcode cpu soc
  call_fn halt src opcode cpu soc = some (opcode_halt bus cpu soc)
  call_fn add_r8_imm8_hladdr src opcode cpu soc = opcode_add_r8_imm8_hladdr bus src opcode cpu soc
  call_fn adc src opcode cpu soc = opcode_adc bus src opcode cpu soc
  call_fn sub src opcode cpu soc = opcode_sub bus src opcode cpu soc
  call_fn sbc src opcode cpu soc = opcode_sbc bus src opcode cpu soc
  call_fn and src opcode cpu soc = opcode_and bus src opcode cpu soc
  call_fn xor src opcode cpu soc = opcode_xor bus src opcode cpu soc
  call_fn or src opcode cpu soc = opcode_or bus src opcode cpu soc
  call_fn cp src opcode cpu soc = opcode_cp bus src opcode cpu soc
  call_fn ret_cc src opcode cpu soc = opcode_ret_cc bus opcode cpu soc
  call_fn pop src opcode cpu soc = opcode_pop bus opcode cpu soc
  call_fn jp_cc src opcode cpu soc = opcode_jp_cc bus opcode cpu soc
  call_fn jp_a16 src opcode cpu soc = opcode_jp_a16 bus cpu soc
  call_fn call_cc src opcode cpu soc = opcode_call_cc bus opcode cpu soc
  call_fn push src opcode cpu soc = opcode_push bus opcode cpu soc
  call_fn rst src opcode cpu soc = opcode_rst bus opcode cpu soc
  call_fn ret src opcode cpu soc = opcode_ret bus cpu soc
  call_fn prefix src opcode cpu soc = none
  call_fn call_a16 src opcode cpu soc = opcode_call_a16 bus cpu soc
  call_fn illegal_d3 src opcode cpu soc = none
  call_fn reti src opcode cpu soc = opcode_reti bus cpu soc
  call_fn illegal_db src opcode cpu soc = none
  call_fn illegal_dd src opcode cpu soc = none
  call_fn ldh_r8addr_a src opcode cpu soc = opcode_ldh_r8addr_a bus opcode cpu soc
  call_fn r8addr_a src opcode cpu soc = opcode_r8addr_a bus opcode cpu soc
  call_fn illegal_e3 src opcode cpu soc = none
  call_fn illegal_e4 src opcode cpu soc = none
  call_fn add_sp_e8 src opcode cpu soc = opcode_add_sp_e8 bus opcode cpu soc
  call_fn jp_hl src opcode cpu soc = some (opcode_jp_hl cpu, soc)
  call_fn imm16addr_a src opcode cpu soc = opcode_imm16addr_a bus opcode cpu soc
  call_fn illegal_eb src opcode cpu soc = none
  call_fn illegal_ec src opcode cpu soc = none
  call_fn illegal_ed src opcode cpu soc = none
  call_fn ldh_a_r8addr src opcode cpu soc = opcode_ldh_a_r8addr bus opcode cpu soc
  call_fn r8_c src opcode cpu soc = opcode_r8_c bus opcode cpu soc
  call_fn di src opcode cpu soc = some (opcode_di cpu, soc)
  call_fn illegal_f4 src opcode cpu soc = none
  call_fn ld_hl_spi src opcode cpu soc = opcode_ld_hl_spi bus opcode cpu soc
  call_fn ld_sp_hl src opcode cpu soc = opcode_ld_sp_hl bus opcode cpu soc
  call_fn ld_a_imm16addr src opcode cpu soc = opcode_ld_a_imm16addr bus opcode cpu soc
  call_fn ei src opcode cpu soc = some (opcode_ei cpu, soc)
  call_fn illegal_fc src opcode cpu soc = none
  call_fn illegal_fd src opcode cpu soc = none
  call_fn rlc src opcode cpu soc = opcode_rlc bus opcode cpu soc
  call_fn rrc src opcode cpu soc = opcode_rrc bus opcode cpu soc
  call_fn rl src opcode cpu soc = opcode_rl bus opcode cpu soc
  call_fn rr src opcode cpu soc = opcode_rr bus opcode cpu soc
  call_fn sla src opcode cpu soc = opcode_sla bus opcode cpu soc
  call_fn sra src opcode cpu soc = opcode_sra bus opcode cpu soc
  call_fn swap src opcode cpu soc = opcode_swap bus opcode cpu soc
  call_fn srl src opcode cpu soc = opcode_srl bus opcode cpu soc
  call_fn bit src opcode cpu soc = opcode_bit bus opcode cpu soc
  call_fn res src opcode cpu soc = opcode_res bus opcode cpu soc
  call_fn set src opcode cpu soc = opcode_set bus opcode cpu soc

  -- `(inst.exec)(self, soc, inst, self.opcode)`
  unfoldable pub exec : Instruction → ℕ → Cpu → S → Option (Cpu × S)
  exec inst opcode cpu soc = call_fn inst.exec inst.src opcode cpu soc
