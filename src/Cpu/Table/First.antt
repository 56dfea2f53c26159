-- ===== src/Cpu/Table/First.antt =====
-- The first half of `INSTR_INDEX` of src/cpu/inst_def.rs: the opcodes 0x00 to 0x7F.
use zenith_gb.Base.{List, [], ◌∷◌}
use zenith_gb.Cpu.Operand.{
  flag_c, flag_nc, flag_nz, flag_z, imm16, imm16_addr, imm8, implied, r16, r16_addr, r8,
}
use zenith_gb.Cpu.Instruction.{
  Instruction, row, add_hl_r16, ccf, cpl, daa, dec_r16, dec_r16addr, dec_r8, halt, hladdr_imm8,
  hladdr_r8, imm16addr_r16, inc_r16, inc_r16addr, inc_r8, jr_cc, jr_e8, ld_a_bcaddr, ld_a_deaddr,
  ld_a_hldaddr, ld_a_hliaddr, ld_b_b, ld_bcaddr_a, ld_deaddr_a, ld_hldaddr_a, ld_hliaddr_a,
  ld_r16_imm16, ld_r8_hladdr, ld_r8_imm8, ld_r8_r8, nop, rla, rlca, rra, rrca, scf, stop,
}

abbrev pub instr_index_first : List Instruction
instr_index_first =
    row implied implied 1 0 nop
    ∷ row r16 imm16 3 0 ld_r16_imm16
    ∷ row r16_addr r8 2 0 ld_bcaddr_a
    ∷ row r16 implied 2 0 inc_r16
    ∷ row r8 implied 1 0 inc_r8
    ∷ row r8 implied 1 0 dec_r8
    ∷ row r8 imm8 2 0 ld_r8_imm8
    ∷ row implied implied 1 0 rlca
    ∷ row imm16_addr r16 5 0 imm16addr_r16
    ∷ row r16 r16 2 0 add_hl_r16
    ∷ row r8 r16_addr 2 0 ld_a_bcaddr
    ∷ row r16 implied 2 0 dec_r16
    ∷ row r8 implied 1 0 inc_r8
    ∷ row r8 implied 1 0 dec_r8
    ∷ row r8 imm8 2 0 ld_r8_imm8
    ∷ row implied implied 1 0 rrca
    ∷ row imm8 implied 1 0 stop
    ∷ row r16 imm16 3 0 ld_r16_imm16
    ∷ row r16_addr r8 2 0 ld_deaddr_a
    ∷ row r16 implied 2 0 inc_r16
    ∷ row r8 implied 1 0 inc_r8
    ∷ row r8 implied 1 0 dec_r8
    ∷ row r8 imm8 2 0 ld_r8_imm8
    ∷ row implied implied 1 0 rla
    ∷ row imm8 implied 3 0 jr_e8
    ∷ row r16 r16 2 0 add_hl_r16
    ∷ row r8 r16_addr 2 0 ld_a_deaddr
    ∷ row r16 implied 2 0 dec_r16
    ∷ row r8 implied 1 0 inc_r8
    ∷ row r8 implied 1 0 dec_r8
    ∷ row r8 imm8 2 0 ld_r8_imm8
    ∷ row implied implied 1 0 rra
    ∷ row flag_nz imm8 3 2 jr_cc
    ∷ row r16 imm16 3 0 ld_r16_imm16
    ∷ row r16_addr r8 2 0 ld_hliaddr_a
    ∷ row r16 implied 2 0 inc_r16
    ∷ row r8 implied 1 0 inc_r8
    ∷ row r8 implied 1 0 dec_r8
    ∷ row r8 imm8 2 0 ld_r8_imm8
    ∷ row implied implied 1 0 daa
    ∷ row flag_z imm8 3 2 jr_cc
    ∷ row r16 r16 2 0 add_hl_r16
    ∷ row r8 r16_addr 2 0 ld_a_hliaddr
    ∷ row r16 implied 2 0 dec_r16
    ∷ row r8 implied 1 0 inc_r8
    ∷ row r8 implied 1 0 dec_r8
    ∷ row r8 imm8 2 0 ld_r8_imm8
    ∷ row implied implied 1 0 cpl
    ∷ row flag_nc imm8 3 2 jr_cc
    ∷ row r16 imm16 3 0 ld_r16_imm16
    ∷ row r16_addr r8 2 0 ld_hldaddr_a
    ∷ row r16 implied 2 0 inc_r16
    ∷ row r16_addr implied 3 0 inc_r16addr
    ∷ row r16_addr implied 3 0 dec_r16addr
    ∷ row r16_addr imm8 3 0 hladdr_imm8
    ∷ row implied implied 1 0 scf
    ∷ row flag_c imm8 3 2 jr_cc
    ∷ row r16 r16 2 0 add_hl_r16
    ∷ row r8 r16_addr 2 0 ld_a_hldaddr
    ∷ row r16 implied 2 0 dec_r16
    ∷ row r8 implied 1 0 inc_r8
    ∷ row r8 implied 1 0 dec_r8
    ∷ row r8 imm8 2 0 ld_r8_imm8
    ∷ row implied implied 1 0 ccf
    ∷ row r8 r8 1 0 ld_b_b
    ∷ row r8 r8 1 0 ld_r8_r8
    ∷ row r8 r8 1 0 ld_r8_r8
    ∷ row r8 r8 1 0 ld_r8_r8
    ∷ row r8 r8 1 0 ld_r8_r8
    ∷ row r8 r8 1 0 ld_r8_r8
    ∷ row r8 r16_addr 2 0 ld_r8_hladdr
    ∷ row r8 r8 1 0 ld_r8_r8
    ∷ row r8 r8 1 0 ld_r8_r8
    ∷ row r8 r8 1 0 ld_r8_r8
    ∷ row r8 r8 1 0 ld_r8_r8
    ∷ row r8 r8 1 0 ld_r8_r8
    ∷ row r8 r8 1 0 ld_r8_r8
    ∷ row r8 r8 1 0 ld_r8_r8
    ∷ row r8 r16_addr 2 0 ld_r8_hladdr
    ∷ row r8 r8 1 0 ld_r8_r8
    ∷ row r8 r8 1 0 ld_r8_r8
    ∷ row r8 r8 1 0 ld_r8_r8
    ∷ row r8 r8 1 0 ld_r8_r8
    ∷ row r8 r8 1 0 ld_r8_r8
    ∷ row r8 r8 1 0 ld_r8_r8
    ∷ row r8 r8 1 0 ld_r8_r8
    ∷ row r8 r16_addr 2 0 ld_r8_hladdr
    ∷ row r8 r8 1 0 ld_r8_r8
    ∷ row r8 r8 1 0 ld_r8_r8
    ∷ row r8 r8 1 0 ld_r8_r8
    ∷ row r8 r8 1 0 ld_r8_r8
    ∷ row r8 r8 1 0 ld_r8_r8
    ∷ row r8 r8 1 0 ld_r8_r8
    ∷ row r8 r8 1 0 ld_r8_r8
    ∷ row r8 r16_addr 2 0 ld_r8_hladdr
    ∷ row r8 r8 1 0 ld_r8_r8
    ∷ row r8 r8 1 0 ld_r8_r8
    ∷ row r8 r8 1 0 ld_r8_r8
    ∷ row r8 r8 1 0 ld_r8_r8
    ∷ row r8 r8 1 0 ld_r8_r8
    ∷ row r8 r8 1 0 ld_r8_r8
    ∷ row r8 r8 1 0 ld_r8_r8
    ∷ row r8 r16_addr 2 0 ld_r8_hladdr
    ∷ row r8 r8 1 0 ld_r8_r8
    ∷ row r8 r8 1 0 ld_r8_r8
    ∷ row r8 r8 1 0 ld_r8_r8
    ∷ row r8 r8 1 0 ld_r8_r8
    ∷ row r8 r8 1 0 ld_r8_r8
    ∷ row r8 r8 1 0 ld_r8_r8
    ∷ row r8 r8 1 0 ld_r8_r8
    ∷ row r8 r16_addr 2 0 ld_r8_hladdr
    ∷ row r8 r8 1 0 ld_r8_r8
    ∷ row r16_addr r8 2 0 hladdr_r8
    ∷ row r16_addr r8 2 0 hladdr_r8
    ∷ row r16_addr r8 2 0 hladdr_r8
    ∷ row r16_addr r8 2 0 hladdr_r8
    ∷ row r16_addr r8 2 0 hladdr_r8
    ∷ row r16_addr r8 2 0 hladdr_r8
    ∷ row implied implied 1 0 halt
    ∷ row r16_addr r8 2 0 hladdr_r8
    ∷ row r8 r8 1 0 ld_r8_r8
    ∷ row r8 r8 1 0 ld_r8_r8
    ∷ row r8 r8 1 0 ld_r8_r8
    ∷ row r8 r8 1 0 ld_r8_r8
    ∷ row r8 r8 1 0 ld_r8_r8
    ∷ row r8 r8 1 0 ld_r8_r8
    ∷ row r8 r16_addr 2 0 ld_r8_hladdr
    ∷ row r8 r8 1 0 ld_r8_r8
    ∷ []
