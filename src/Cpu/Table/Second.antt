-- ===== src/Cpu/Table/Second.antt =====
-- The second half of `INSTR_INDEX` of src/cpu/inst_def.rs: the opcodes 0x80 to 0xFF.
use zenith_gb.Base.{List, [], ◌∷◌}
use zenith_gb.Cpu.Operand.{
  flag_c, flag_nc, flag_nz, flag_z, imm16_addr, imm8, imm8_addr, implied, r16, r16_addr, r8,
  r8_addr,
}
use zenith_gb.Cpu.Instruction.{
  Instruction, row, adc, add_r8_imm8_hladdr, add_sp_e8, and, call_a16, call_cc, cp, di, ei,
  illegal_d3, illegal_db, illegal_dd, illegal_e3, illegal_e4, illegal_eb, illegal_ec, illegal_ed,
  illegal_f4, illegal_fc, illegal_fd, imm16addr_a, jp_a16, jp_cc, jp_hl, ld_a_imm16addr, ld_hl_spi,
  ld_sp_hl, ldh_a_r8addr, ldh_r8addr_a, or, pop, prefix, push, r8_c, r8addr_a, ret, ret_cc, reti,
  rst, sbc, sub, xor,
}

abbrev pub instr_index_second : List Instruction
instr_index_second =
    row r8 r8 1 0 add_r8_imm8_hladdr
    ∷ row r8 r8 1 0 add_r8_imm8_hladdr
    ∷ row r8 r8 1 0 add_r8_imm8_hladdr
    ∷ row r8 r8 1 0 add_r8_imm8_hladdr
    ∷ row r8 r8 1 0 add_r8_imm8_hladdr
    ∷ row r8 r8 1 0 add_r8_imm8_hladdr
    ∷ row r8 r16_addr 2 0 add_r8_imm8_hladdr
    ∷ row r8 r8 1 0 add_r8_imm8_hladdr
    ∷ row r8 r8 1 0 adc
    ∷ row r8 r8 1 0 adc
    ∷ row r8 r8 1 0 adc
    ∷ row r8 r8 1 0 adc
    ∷ row r8 r8 1 0 adc
    ∷ row r8 r8 1 0 adc
    ∷ row r8 r16_addr 2 0 adc
    ∷ row r8 r8 1 0 adc
    ∷ row r8 r8 1 0 sub
    ∷ row r8 r8 1 0 sub
    ∷ row r8 r8 1 0 sub
    ∷ row r8 r8 1 0 sub
    ∷ row r8 r8 1 0 sub
    ∷ row r8 r8 1 0 sub
    ∷ row r8 r16_addr 2 0 sub
    ∷ row r8 r8 1 0 sub
    ∷ row r8 r8 1 0 sbc
    ∷ row r8 r8 1 0 sbc
    ∷ row r8 r8 1 0 sbc
    ∷ row r8 r8 1 0 sbc
    ∷ row r8 r8 1 0 sbc
    ∷ row r8 r8 1 0 sbc
    ∷ row r8 r16_addr 2 0 sbc
    ∷ row r8 r8 1 0 sbc
    ∷ row r8 r8 1 0 and
    ∷ row r8 r8 1 0 and
    ∷ row r8 r8 1 0 and
    ∷ row r8 r8 1 0 and
    ∷ row r8 r8 1 0 and
    ∷ row r8 r8 1 0 and
    ∷ row r8 r16_addr 2 0 and
    ∷ row r8 r8 1 0 and
    ∷ row r8 r8 1 0 xor
    ∷ row r8 r8 1 0 xor
    ∷ row r8 r8 1 0 xor
    ∷ row r8 r8 1 0 xor
    ∷ row r8 r8 1 0 xor
    ∷ row r8 r8 1 0 xor
    ∷ row r8 r16_addr 2 0 xor
    ∷ row r8 r8 1 0 xor
    ∷ row r8 r8 1 0 or
    ∷ row r8 r8 1 0 or
    ∷ row r8 r8 1 0 or
    ∷ row r8 r8 1 0 or
    ∷ row r8 r8 1 0 or
    ∷ row r8 r8 1 0 or
    ∷ row r8 r16_addr 2 0 or
    ∷ row r8 r8 1 0 or
    ∷ row r8 r8 1 0 cp
    ∷ row r8 r8 1 0 cp
    ∷ row r8 r8 1 0 cp
    ∷ row r8 r8 1 0 cp
    ∷ row r8 r8 1 0 cp
    ∷ row r8 r8 1 0 cp
    ∷ row r8 r16_addr 2 0 cp
    ∷ row r8 r8 1 0 cp
    ∷ row flag_nz implied 5 2 ret_cc
    ∷ row r16 implied 3 0 pop
    ∷ row flag_nz imm16_addr 4 3 jp_cc
    ∷ row imm16_addr implied 4 0 jp_a16
    ∷ row flag_nz imm16_addr 6 3 call_cc
    ∷ row r16 implied 4 0 push
    ∷ row r8 imm8 2 0 add_r8_imm8_hladdr
    ∷ row implied implied 4 0 rst
    ∷ row flag_z implied 5 2 ret_cc
    ∷ row implied implied 4 0 ret
    ∷ row flag_z imm16_addr 4 3 jp_cc
    ∷ row implied implied 1 0 prefix
    ∷ row flag_z imm16_addr 6 3 call_cc
    ∷ row imm16_addr implied 6 0 call_a16
    ∷ row r8 imm8 2 0 adc
    ∷ row implied implied 4 0 rst
    ∷ row flag_nc implied 5 2 ret_cc
    ∷ row r16 implied 3 0 pop
    ∷ row flag_nc imm16_addr 4 3 jp_cc
    ∷ row implied implied 1 0 illegal_d3
    ∷ row flag_nc imm16_addr 6 3 call_cc
    ∷ row r16 implied 4 0 push
    ∷ row r8 imm8 2 0 sub
    ∷ row implied implied 4 0 rst
    ∷ row flag_c implied 5 2 ret_cc
    ∷ row implied implied 4 0 reti
    ∷ row flag_c imm16_addr 4 3 jp_cc
    ∷ row implied implied 1 0 illegal_db
    ∷ row flag_c imm16_addr 6 3 call_cc
    ∷ row implied implied 1 0 illegal_dd
    ∷ row r8 imm8 2 0 sbc
    ∷ row implied implied 4 0 rst
    ∷ row imm8_addr r8 3 0 ldh_r8addr_a
    ∷ row r16 implied 3 0 pop
    ∷ row r8_addr r8 2 0 r8addr_a
    ∷ row implied implied 1 0 illegal_e3
    ∷ row implied implied 1 0 illegal_e4
    ∷ row r16 implied 4 0 push
    ∷ row r8 imm8 2 0 and
    ∷ row implied implied 4 0 rst
    ∷ row r16 imm8 4 0 add_sp_e8
    ∷ row r16 implied 1 0 jp_hl
    ∷ row imm16_addr r8 4 0 imm16addr_a
    ∷ row implied implied 1 0 illegal_eb
    ∷ row implied implied 1 0 illegal_ec
    ∷ row implied implied 1 0 illegal_ed
    ∷ row r8 imm8 2 0 xor
    ∷ row implied implied 4 0 rst
    ∷ row r8 imm8_addr 3 0 ldh_a_r8addr
    ∷ row r16 implied 3 0 pop
    ∷ row r8 r8_addr 2 0 r8_c
    ∷ row implied implied 1 0 di
    ∷ row implied implied 1 0 illegal_f4
    ∷ row r16 implied 4 0 push
    ∷ row r8 imm8 2 0 or
    ∷ row implied implied 4 0 rst
    ∷ row r16 r16 3 0 ld_hl_spi
    ∷ row r16 r16 2 0 ld_sp_hl
    ∷ row r8 imm16_addr 4 0 ld_a_imm16addr
    ∷ row implied implied 1 0 ei
    ∷ row implied implied 1 0 illegal_fc
    ∷ row implied implied 1 0 illegal_fd
    ∷ row r8 imm8 2 0 cp
    ∷ row implied implied 4 0 rst
    ∷ []
