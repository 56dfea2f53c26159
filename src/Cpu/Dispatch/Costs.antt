-- ===== src/Cpu/Dispatch/Costs.antt =====
-- For which opcodes the functions of the table are written, and what they cost.
use zenith_gb.Base.{
  ℕ, ◌+◌, Bool, true, false, not, ◌&&◌, ◌||◌, bit_and, ◌>>>◌, ◌==◌, leb, if◌then◌else◌,
}
use zenith_gb.Cpu.Operand.{OperandKind}
use zenith_gb.Cpu.Load.{is_ld_r8_hladdr, is_hladdr_r8}
use zenith_gb.Cpu.Alu.Timing.{operand_cycles, is_operand}
use zenith_gb.Cpu.Instruction.{
  OpcodeFn, ld_r16_imm16, ld_bcaddr_a, inc_r16, inc_r8, dec_r8, ld_r8_imm8, rlca, imm16addr_r16,
  add_hl_r16, ld_a_bcaddr, dec_r16, rrca, stop, ld_deaddr_a, rla, jr_e8, ld_a_deaddr, rra, jr_cc,
  ld_hliaddr_a, ld_a_hliaddr, ld_hldaddr_a, inc_r16addr, dec_r16addr, hladdr_imm8, ld_a_hldaddr,
  ld_r8_r8, ld_r8_hladdr, hladdr_r8, add_r8_imm8_hladdr, adc, sub, sbc, and, xor, or, cp, ret_cc,
  pop, jp_cc, jp_a16, call_cc, push, rst, ret, prefix, call_a16, illegal_d3, reti, illegal_db,
  illegal_dd, ldh_r8addr_a, r8addr_a, illegal_e3, illegal_e4, add_sp_e8, imm16addr_a, illegal_eb,
  illegal_ec, illegal_ed, ldh_a_r8addr, r8_c, illegal_f4, ld_hl_spi, ld_sp_hl, ld_a_imm16addr,
  illegal_fc, illegal_fd, rlc, rrc, rl, rr, sla, sra, swap, srl, bit, res, set,
}

-- The two fields of an opcode that number a register.
abbrev low : ℕ → ℕ
low opcode = bit_and opcode 0x7

abbrev mid : ℕ → ℕ
mid opcode = bit_and (opcode >>> 3) 0x7

-- The opcodes for which a function is written, by its assertions. `LD [a16] SP` is apart, since it
-- depends on the address.
abbrev pub expects : OpcodeFn → OperandKind → ℕ → Bool
expects ld_r16_imm16 src opcode =
    opcode == 0x01 || opcode == 0x11 || opcode == 0x21 || opcode == 0x31
expects ld_bcaddr_a src opcode = opcode == 0x02
expects inc_r8 src opcode = not (mid opcode == 6)
expects dec_r8 src opcode = not (mid opcode == 6)
expects ld_r8_imm8 src opcode = not (mid opcode == 6)
expects rlca src opcode = opcode == 0x07
expects imm16addr_r16 src opcode = false
expects ld_a_bcaddr src opcode = opcode == 0x0a
expects rrca src opcode = opcode == 0x0f
expects stop src opcode = opcode == 0x10
expects ld_deaddr_a src opcode = opcode == 0x12
expects rla src opcode = opcode == 0x17
expects ld_a_deaddr src opcode = opcode == 0x1a
expects rra src opcode = opcode == 0x1f
expects jr_cc src opcode = opcode == 0x20 || opcode == 0x28 || opcode == 0x30 || opcode == 0x38
expects ld_hliaddr_a src opcode = opcode == 0x22
expects ld_a_hliaddr src opcode = opcode == 0x2a
expects ld_hldaddr_a src opcode = opcode == 0x32
expects inc_r16addr src opcode = opcode == 0x34
expects dec_r16addr src opcode = opcode == 0x35
expects hladdr_imm8 src opcode = opcode == 0x36
expects ld_a_hldaddr src opcode = opcode == 0x3a
expects ld_r8_r8 src opcode = not (mid opcode == 6) && not (low opcode == 6)
expects ld_r8_hladdr src opcode = is_ld_r8_hladdr opcode && low opcode == 6 && not (mid opcode == 6)
expects hladdr_r8 src opcode = is_hladdr_r8 opcode && mid opcode == 6 && not (low opcode == 6)
expects add_r8_imm8_hladdr src opcode = is_operand src opcode
expects adc src opcode = is_operand src opcode
expects sub src opcode = is_operand src opcode
expects sbc src opcode = is_operand src opcode
expects and src opcode = is_operand src opcode
expects xor src opcode = is_operand src opcode
expects or src opcode = is_operand src opcode
expects cp src opcode = is_operand src opcode
expects ret_cc src opcode = opcode == 0xc0 || opcode == 0xc8 || opcode == 0xd0 || opcode == 0xd8
expects call_cc src opcode = opcode == 0xc4 || opcode == 0xcc || opcode == 0xd4 || opcode == 0xdc
expects rst src opcode = leb 0xc7 opcode
expects prefix src opcode = false
expects illegal_d3 src opcode = false
expects illegal_db src opcode = false
expects illegal_dd src opcode = false
expects ldh_r8addr_a src opcode = opcode == 0xe0
expects r8addr_a src opcode = opcode == 0xe2
expects illegal_e3 src opcode = false
expects illegal_e4 src opcode = false
expects add_sp_e8 src opcode = opcode == 0xe8
expects imm16addr_a src opcode = opcode == 0xea
expects illegal_eb src opcode = false
expects illegal_ec src opcode = false
expects illegal_ed src opcode = false
expects ldh_a_r8addr src opcode = opcode == 0xf0
expects r8_c src opcode = opcode == 0xf2
expects illegal_f4 src opcode = false
expects ld_hl_spi src opcode = opcode == 0xf8
expects ld_sp_hl src opcode = opcode == 0xf9
expects ld_a_imm16addr src opcode = opcode == 0xfa
expects illegal_fc src opcode = false
expects illegal_fd src opcode = false
expects _ src opcode = true

-- The machine cycles of a function, without the fetch that follows it, and with the branch taken.
abbrev pub taken_cycles : OpcodeFn → OperandKind → ℕ → ℕ
taken_cycles ld_r16_imm16 src opcode = 2
taken_cycles ld_bcaddr_a src opcode = 1
taken_cycles inc_r16 src opcode = 1
taken_cycles ld_r8_imm8 src opcode = 1
taken_cycles add_hl_r16 src opcode = 1
taken_cycles ld_a_bcaddr src opcode = 1
taken_cycles dec_r16 src opcode = 1
taken_cycles ld_deaddr_a src opcode = 1
taken_cycles jr_e8 src opcode = 2
taken_cycles ld_a_deaddr src opcode = 1
taken_cycles jr_cc src opcode = 2
taken_cycles ld_hliaddr_a src opcode = 1
taken_cycles ld_a_hliaddr src opcode = 1
taken_cycles ld_hldaddr_a src opcode = 1
taken_cycles inc_r16addr src opcode = 2
taken_cycles dec_r16addr src opcode = 2
taken_cycles hladdr_imm8 src opcode = 2
taken_cycles ld_a_hldaddr src opcode = 1
taken_cycles ld_r8_hladdr src opcode = 1
taken_cycles hladdr_r8 src opcode = 1
taken_cycles add_r8_imm8_hladdr src opcode = 0 + operand_cycles src
taken_cycles adc src opcode = 0 + operand_cycles src
taken_cycles sub src opcode = 0 + operand_cycles src
taken_cycles sbc src opcode = 0 + operand_cycles src
taken_cycles and src opcode = 0 + operand_cycles src
taken_cycles xor src opcode = 0 + operand_cycles src
taken_cycles or src opcode = 0 + operand_cycles src
taken_cycles cp src opcode = 0 + operand_cycles src
taken_cycles ret_cc src opcode = 4
taken_cycles pop src opcode = 2
taken_cycles jp_cc src opcode = 3
taken_cycles jp_a16 src opcode = 3
taken_cycles call_cc src opcode = 5
taken_cycles push src opcode = 3
taken_cycles rst src opcode = 3
taken_cycles ret src opcode = 3
taken_cycles call_a16 src opcode = 5
taken_cycles reti src opcode = 3
taken_cycles ldh_r8addr_a src opcode = 2
taken_cycles r8addr_a src opcode = 1
taken_cycles add_sp_e8 src opcode = 3
taken_cycles imm16addr_a src opcode = 3
taken_cycles ldh_a_r8addr src opcode = 2
taken_cycles r8_c src opcode = 1
taken_cycles ld_hl_spi src opcode = 2
taken_cycles ld_sp_hl src opcode = 1
taken_cycles ld_a_imm16addr src opcode = 3
taken_cycles rlc src opcode = 0 + (if low opcode == 6 then 2 else 0)
taken_cycles rrc src opcode = 0 + (if low opcode == 6 then 2 else 0)
taken_cycles rl src opcode = 0 + (if low opcode == 6 then 2 else 0)
taken_cycles rr src opcode = 0 + (if low opcode == 6 then 2 else 0)
taken_cycles sla src opcode = 0 + (if low opcode == 6 then 2 else 0)
taken_cycles sra src opcode = 0 + (if low opcode == 6 then 2 else 0)
taken_cycles swap src opcode = 0 + (if low opcode == 6 then 2 else 0)
taken_cycles srl src opcode = 0 + (if low opcode == 6 then 2 else 0)
taken_cycles bit src opcode = 0 + (if low opcode == 6 then 1 else 0)
taken_cycles res src opcode = 0 + (if low opcode == 6 then 2 else 0)
taken_cycles set src opcode = 0 + (if low opcode == 6 then 2 else 0)
taken_cycles _ src opcode = 0

-- With `k` cycles around a function: what a row says of a branch that is skipped.
abbrev pub is_skipped_cost : OpcodeFn → (k cycles_skipped : ℕ) → Bool
is_skipped_cost jr_cc k cycles_skipped = cycles_skipped == 1 + k
is_skipped_cost ret_cc k cycles_skipped = cycles_skipped == 1 + k
is_skipped_cost jp_cc k cycles_skipped = cycles_skipped == 2 + k
is_skipped_cost call_cc k cycles_skipped = cycles_skipped == 2 + k
is_skipped_cost _ k cycles_skipped = true
