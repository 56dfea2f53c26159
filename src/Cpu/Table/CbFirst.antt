-- ===== src/Cpu/Table/CbFirst.antt =====
-- The first half of `INSTR_INDEX_CB` of src/cpu/inst_def.rs: 0x00 to 0x7F behind the prefix.
use zenith_gb.Base.{List, [], ◌∷◌}
use zenith_gb.Cpu.Operand.{OperandKind, implied, r16_addr, r8}
use zenith_gb.Cpu.Instruction.{OpcodeFn, Instruction, row, rl, rlc, rr, rrc, sla, sra, srl, swap}

abbrev pub instr_index_cb_first : List Instruction
instr_index_cb_first =
    row r8 implied 2 0 rlc
    ∷ row r8 implied 2 0 rlc
    ∷ row r8 implied 2 0 rlc
    ∷ row r8 implied 2 0 rlc
    ∷ row r8 implied 2 0 rlc
    ∷ row r8 implied 2 0 rlc
    ∷ row r16_addr implied 4 0 rlc
    ∷ row r8 implied 2 0 rlc
    ∷ row r8 implied 2 0 rrc
    ∷ row r8 implied 2 0 rrc
    ∷ row r8 implied 2 0 rrc
    ∷ row r8 implied 2 0 rrc
    ∷ row r8 implied 2 0 rrc
    ∷ row r8 implied 2 0 rrc
    ∷ row r16_addr implied 4 0 rrc
    ∷ row r8 implied 2 0 rrc
    ∷ row r8 implied 2 0 rl
    ∷ row r8 implied 2 0 rl
    ∷ row r8 implied 2 0 rl
    ∷ row r8 implied 2 0 rl
    ∷ row r8 implied 2 0 rl
    ∷ row r8 implied 2 0 rl
    ∷ row r16_addr implied 4 0 rl
    ∷ row r8 implied 2 0 rl
    ∷ row r8 implied 2 0 rr
    ∷ row r8 implied 2 0 rr
    ∷ row r8 implied 2 0 rr
    ∷ row r8 implied 2 0 rr
    ∷ row r8 implied 2 0 rr
    ∷ row r8 implied 2 0 rr
    ∷ row r16_addr implied 4 0 rr
    ∷ row r8 implied 2 0 rr
    ∷ row r8 implied 2 0 sla
    ∷ row r8 implied 2 0 sla
    ∷ row r8 implied 2 0 sla
    ∷ row r8 implied 2 0 sla
    ∷ row r8 implied 2 0 sla
    ∷ row r8 implied 2 0 sla
    ∷ row r16_addr implied 4 0 sla
    ∷ row r8 implied 2 0 sla
    ∷ row r8 implied 2 0 sra
    ∷ row r8 implied 2 0 sra
    ∷ row r8 implied 2 0 sra
    ∷ row r8 implied 2 0 sra
    ∷ row r8 implied 2 0 sra
    ∷ row r8 implied 2 0 sra
    ∷ row r16_addr implied 4 0 sra
    ∷ row r8 implied 2 0 sra
    ∷ row r8 implied 2 0 swap
    ∷ row r8 implied 2 0 swap
    ∷ row r8 implied 2 0 swap
    ∷ row r8 implied 2 0 swap
    ∷ row r8 implied 2 0 swap
    ∷ row r8 implied 2 0 swap
    ∷ row r16_addr implied 4 0 swap
    ∷ row r8 implied 2 0 swap
    ∷ row r8 implied 2 0 srl
    ∷ row r8 implied 2 0 srl
    ∷ row r8 implied 2 0 srl
    ∷ row r8 implied 2 0 srl
    ∷ row r8 implied 2 0 srl
    ∷ row r8 implied 2 0 srl
    ∷ row r16_addr implied 4 0 srl
    ∷ row r8 implied 2 0 srl
    ∷ row OperandKind.bit r8 2 0 OpcodeFn.bit
    ∷ row OperandKind.bit r8 2 0 OpcodeFn.bit
    ∷ row OperandKind.bit r8 2 0 OpcodeFn.bit
    ∷ row OperandKind.bit r8 2 0 OpcodeFn.bit
    ∷ row OperandKind.bit r8 2 0 OpcodeFn.bit
    ∷ row OperandKind.bit r8 2 0 OpcodeFn.bit
    ∷ row OperandKind.bit r16_addr 3 0 OpcodeFn.bit
    ∷ row OperandKind.bit r8 2 0 OpcodeFn.bit
    ∷ row OperandKind.bit r8 2 0 OpcodeFn.bit
    ∷ row OperandKind.bit r8 2 0 OpcodeFn.bit
    ∷ row OperandKind.bit r8 2 0 OpcodeFn.bit
    ∷ row OperandKind.bit r8 2 0 OpcodeFn.bit
    ∷ row OperandKind.bit r8 2 0 OpcodeFn.bit
    ∷ row OperandKind.bit r8 2 0 OpcodeFn.bit
    ∷ row OperandKind.bit r16_addr 3 0 OpcodeFn.bit
    ∷ row OperandKind.bit r8 2 0 OpcodeFn.bit
    ∷ row OperandKind.bit r8 2 0 OpcodeFn.bit
    ∷ row OperandKind.bit r8 2 0 OpcodeFn.bit
    ∷ row OperandKind.bit r8 2 0 OpcodeFn.bit
    ∷ row OperandKind.bit r8 2 0 OpcodeFn.bit
    ∷ row OperandKind.bit r8 2 0 OpcodeFn.bit
    ∷ row OperandKind.bit r8 2 0 OpcodeFn.bit
    ∷ row OperandKind.bit r16_addr 3 0 OpcodeFn.bit
    ∷ row OperandKind.bit r8 2 0 OpcodeFn.bit
    ∷ row OperandKind.bit r8 2 0 OpcodeFn.bit
    ∷ row OperandKind.bit r8 2 0 OpcodeFn.bit
    ∷ row OperandKind.bit r8 2 0 OpcodeFn.bit
    ∷ row OperandKind.bit r8 2 0 OpcodeFn.bit
    ∷ row OperandKind.bit r8 2 0 OpcodeFn.bit
    ∷ row OperandKind.bit r8 2 0 OpcodeFn.bit
    ∷ row OperandKind.bit r16_addr 3 0 OpcodeFn.bit
    ∷ row OperandKind.bit r8 2 0 OpcodeFn.bit
    ∷ row OperandKind.bit r8 2 0 OpcodeFn.bit
    ∷ row OperandKind.bit r8 2 0 OpcodeFn.bit
    ∷ row OperandKind.bit r8 2 0 OpcodeFn.bit
    ∷ row OperandKind.bit r8 2 0 OpcodeFn.bit
    ∷ row OperandKind.bit r8 2 0 OpcodeFn.bit
    ∷ row OperandKind.bit r8 2 0 OpcodeFn.bit
    ∷ row OperandKind.bit r16_addr 3 0 OpcodeFn.bit
    ∷ row OperandKind.bit r8 2 0 OpcodeFn.bit
    ∷ row OperandKind.bit r8 2 0 OpcodeFn.bit
    ∷ row OperandKind.bit r8 2 0 OpcodeFn.bit
    ∷ row OperandKind.bit r8 2 0 OpcodeFn.bit
    ∷ row OperandKind.bit r8 2 0 OpcodeFn.bit
    ∷ row OperandKind.bit r8 2 0 OpcodeFn.bit
    ∷ row OperandKind.bit r8 2 0 OpcodeFn.bit
    ∷ row OperandKind.bit r16_addr 3 0 OpcodeFn.bit
    ∷ row OperandKind.bit r8 2 0 OpcodeFn.bit
    ∷ row OperandKind.bit r8 2 0 OpcodeFn.bit
    ∷ row OperandKind.bit r8 2 0 OpcodeFn.bit
    ∷ row OperandKind.bit r8 2 0 OpcodeFn.bit
    ∷ row OperandKind.bit r8 2 0 OpcodeFn.bit
    ∷ row OperandKind.bit r8 2 0 OpcodeFn.bit
    ∷ row OperandKind.bit r8 2 0 OpcodeFn.bit
    ∷ row OperandKind.bit r16_addr 3 0 OpcodeFn.bit
    ∷ row OperandKind.bit r8 2 0 OpcodeFn.bit
    ∷ row OperandKind.bit r8 2 0 OpcodeFn.bit
    ∷ row OperandKind.bit r8 2 0 OpcodeFn.bit
    ∷ row OperandKind.bit r8 2 0 OpcodeFn.bit
    ∷ row OperandKind.bit r8 2 0 OpcodeFn.bit
    ∷ row OperandKind.bit r8 2 0 OpcodeFn.bit
    ∷ row OperandKind.bit r8 2 0 OpcodeFn.bit
    ∷ row OperandKind.bit r16_addr 3 0 OpcodeFn.bit
    ∷ row OperandKind.bit r8 2 0 OpcodeFn.bit
    ∷ []
