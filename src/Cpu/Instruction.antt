-- ===== src/Cpu/Instruction.antt =====
-- src/cpu/inst_def.rs: what the instruction tables say of an opcode.
--
-- A function pointer `CPU::opcode_<name>` is the constructor `<name>`; `Dispatch` gives what it
-- points to.
use zenith_gb.Base.{ℕ}
use zenith_gb.Cpu.Operand.{OperandKind}

pub data OpcodeFn : Type 0 where
  nop : OpcodeFn
  ld_r16_imm16 : OpcodeFn
  ld_bcaddr_a : OpcodeFn
  inc_r16 : OpcodeFn
  inc_r8 : OpcodeFn
  dec_r8 : OpcodeFn
  ld_r8_imm8 : OpcodeFn
  rlca : OpcodeFn
  imm16addr_r16 : OpcodeFn
  add_hl_r16 : OpcodeFn
  ld_a_bcaddr : OpcodeFn
  dec_r16 : OpcodeFn
  rrca : OpcodeFn
  stop : OpcodeFn
  ld_deaddr_a : OpcodeFn
  rla : OpcodeFn
  jr_e8 : OpcodeFn
  ld_a_deaddr : OpcodeFn
  rra : OpcodeFn
  jr_cc : OpcodeFn
  ld_hliaddr_a : OpcodeFn
  daa : OpcodeFn
  ld_a_hliaddr : OpcodeFn
  cpl : OpcodeFn
  ld_hldaddr_a : OpcodeFn
  inc_r16addr : OpcodeFn
  dec_r16addr : OpcodeFn
  hladdr_imm8 : OpcodeFn
  scf : OpcodeFn
  ld_a_hldaddr : OpcodeFn
  ccf : OpcodeFn
  ld_b_b : OpcodeFn
  ld_r8_r8 : OpcodeFn
  ld_r8_hladdr : OpcodeFn
  hladdr_r8 : OpcodeFn
  halt : OpcodeFn
  add_r8_imm8_hladdr : OpcodeFn
  adc : OpcodeFn
  sub : OpcodeFn
  sbc : OpcodeFn
  and : OpcodeFn
  xor : OpcodeFn
  or : OpcodeFn
  cp : OpcodeFn
  ret_cc : OpcodeFn
  pop : OpcodeFn
  jp_cc : OpcodeFn
  jp_a16 : OpcodeFn
  call_cc : OpcodeFn
  push : OpcodeFn
  rst : OpcodeFn
  ret : OpcodeFn
  prefix : OpcodeFn
  call_a16 : OpcodeFn
  illegal_d3 : OpcodeFn
  reti : OpcodeFn
  illegal_db : OpcodeFn
  illegal_dd : OpcodeFn
  ldh_r8addr_a : OpcodeFn
  r8addr_a : OpcodeFn
  illegal_e3 : OpcodeFn
  illegal_e4 : OpcodeFn
  add_sp_e8 : OpcodeFn
  jp_hl : OpcodeFn
  imm16addr_a : OpcodeFn
  illegal_eb : OpcodeFn
  illegal_ec : OpcodeFn
  illegal_ed : OpcodeFn
  ldh_a_r8addr : OpcodeFn
  r8_c : OpcodeFn
  di : OpcodeFn
  illegal_f4 : OpcodeFn
  ld_hl_spi : OpcodeFn
  ld_sp_hl : OpcodeFn
  ld_a_imm16addr : OpcodeFn
  ei : OpcodeFn
  illegal_fc : OpcodeFn
  illegal_fd : OpcodeFn
  rlc : OpcodeFn
  rrc : OpcodeFn
  rl : OpcodeFn
  rr : OpcodeFn
  sla : OpcodeFn
  sra : OpcodeFn
  swap : OpcodeFn
  srl : OpcodeFn
  bit : OpcodeFn
  res : OpcodeFn
  set : OpcodeFn

pub record Instruction : Type 0 where
  pub dst : OperandKind
  pub src : OperandKind
  pub cycles : ℕ
  pub cycles_skipped : ℕ
  pub exec : OpcodeFn

-- A row of a table.
abbrev pub row : (dst src : OperandKind) → (cycles cycles_skipped : ℕ) → OpcodeFn → Instruction
row dst src cycles cycles_skipped exec = record {
  dst = dst;
  src = src;
  cycles = cycles;
  cycles_skipped = cycles_skipped;
  exec = exec;
}
