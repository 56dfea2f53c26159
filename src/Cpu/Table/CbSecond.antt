-- ===== src/Cpu/Table/CbSecond.antt =====
-- The second half of `INSTR_INDEX_CB` of src/cpu/inst_def.rs: 0x80 to 0xFF behind the prefix.
use zenith_gb.Base.{List, [], ◌∷◌}
use zenith_gb.Cpu.Operand.{OperandKind, r16_addr, r8}
use zenith_gb.Cpu.Instruction.{Instruction, row, res, set}

abbrev pub instr_index_cb_second : List Instruction
instr_index_cb_second =
    row OperandKind.bit r8 2 0 res
    ∷ row OperandKind.bit r8 2 0 res
    ∷ row OperandKind.bit r8 2 0 res
    ∷ row OperandKind.bit r8 2 0 res
    ∷ row OperandKind.bit r8 2 0 res
    ∷ row OperandKind.bit r8 2 0 res
    ∷ row OperandKind.bit r16_addr 4 0 res
    ∷ row OperandKind.bit r8 2 0 res
    ∷ row OperandKind.bit r8 2 0 res
    ∷ row OperandKind.bit r8 2 0 res
    ∷ row OperandKind.bit r8 2 0 res
    ∷ row OperandKind.bit r8 2 0 res
    ∷ row OperandKind.bit r8 2 0 res
    ∷ row OperandKind.bit r8 2 0 res
    ∷ row OperandKind.bit r16_addr 4 0 res
    ∷ row OperandKind.bit r8 2 0 res
    ∷ row OperandKind.bit r8 2 0 res
    ∷ row OperandKind.bit r8 2 0 res
    ∷ row OperandKind.bit r8 2 0 res
    ∷ row OperandKind.bit r8 2 0 res
    ∷ row OperandKind.bit r8 2 0 res
    ∷ row OperandKind.bit r8 2 0 res
    ∷ row OperandKind.bit r16_addr 4 0 res
    ∷ row OperandKind.bit r8 2 0 res
    ∷ row OperandKind.bit r8 2 0 res
    ∷ row OperandKind.bit r8 2 0 res
    ∷ row OperandKind.bit r8 2 0 res
    ∷ row OperandKind.bit r8 2 0 res
    ∷ row OperandKind.bit r8 2 0 res
    ∷ row OperandKind.bit r8 2 0 res
    ∷ row OperandKind.bit r16_addr 4 0 res
    ∷ row OperandKind.bit r8 2 0 res
    ∷ row OperandKind.bit r8 2 0 res
    ∷ row OperandKind.bit r8 2 0 res
    ∷ row OperandKind.bit r8 2 0 res
    ∷ row OperandKind.bit r8 2 0 res
    ∷ row OperandKind.bit r8 2 0 res
    ∷ row OperandKind.bit r8 2 0 res
    ∷ row OperandKind.bit r16_addr 4 0 res
    ∷ row OperandKind.bit r8 2 0 res
    ∷ row OperandKind.bit r8 2 0 res
    ∷ row OperandKind.bit r8 2 0 res
    ∷ row OperandKind.bit r8 2 0 res
    ∷ row OperandKind.bit r8 2 0 res
    ∷ row OperandKind.bit r8 2 0 res
    ∷ row OperandKind.bit r8 2 0 res
    ∷ row OperandKind.bit r16_addr 4 0 res
    ∷ row OperandKind.bit r8 2 0 res
    ∷ row OperandKind.bit r8 2 0 res
    ∷ row OperandKind.bit r8 2 0 res
    ∷ row OperandKind.bit r8 2 0 res
    ∷ row OperandKind.bit r8 2 0 res
    ∷ row OperandKind.bit r8 2 0 res
    ∷ row OperandKind.bit r8 2 0 res
    ∷ row OperandKind.bit r16_addr 4 0 res
    ∷ row OperandKind.bit r8 2 0 res
    ∷ row OperandKind.bit r8 2 0 res
    ∷ row OperandKind.bit r8 2 0 res
    ∷ row OperandKind.bit r8 2 0 res
    ∷ row OperandKind.bit r8 2 0 res
    ∷ row OperandKind.bit r8 2 0 res
    ∷ row OperandKind.bit r8 2 0 res
    ∷ row OperandKind.bit r16_addr 4 0 res
    ∷ row OperandKind.bit r8 2 0 res
    ∷ row OperandKind.bit r8 2 0 set
    ∷ row OperandKind.bit r8 2 0 set
    ∷ row OperandKind.bit r8 2 0 set
    ∷ row OperandKind.bit r8 2 0 set
    ∷ row OperandKind.bit r8 2 0 set
    ∷ row OperandKind.bit r8 2 0 set
    ∷ row OperandKind.bit r16_addr 4 0 set
    ∷ row OperandKind.bit r8 2 0 set
    ∷ row OperandKind.bit r8 2 0 set
    ∷ row OperandKind.bit r8 2 0 set
    ∷ row OperandKind.bit r8 2 0 set
    ∷ row OperandKind.bit r8 2 0 set
    ∷ row OperandKind.bit r8 2 0 set
    ∷ row OperandKind.bit r8 2 0 set
    ∷ row OperandKind.bit r16_addr 4 0 set
    ∷ row OperandKind.bit r8 2 0 set
    ∷ row OperandKind.bit r8 2 0 set
    ∷ row OperandKind.bit r8 2 0 set
    ∷ row OperandKind.bit r8 2 0 set
    ∷ row OperandKind.bit r8 2 0 set
    ∷ row OperandKind.bit r8 2 0 set
    ∷ row OperandKind.bit r8 2 0 set
    ∷ row OperandKind.bit r16_addr 4 0 set
    ∷ row OperandKind.bit r8 2 0 set
    ∷ row OperandKind.bit r8 2 0 set
    ∷ row OperandKind.bit r8 2 0 set
    ∷ row OperandKind.bit r8 2 0 set
    ∷ row OperandKind.bit r8 2 0 set
    ∷ row OperandKind.bit r8 2 0 set
    ∷ row OperandKind.bit r8 2 0 set
    ∷ row OperandKind.bit r16_addr 4 0 set
    ∷ row OperandKind.bit r8 2 0 set
    ∷ row OperandKind.bit r8 2 0 set
    ∷ row OperandKind.bit r8 2 0 set
    ∷ row OperandKind.bit r8 2 0 set
    ∷ row OperandKind.bit r8 2 0 set
    ∷ row OperandKind.bit r8 2 0 set
    ∷ row OperandKind.bit r8 2 0 set
    ∷ row OperandKind.bit r16_addr 4 0 set
    ∷ row OperandKind.bit r8 2 0 set
    ∷ row OperandKind.bit r8 2 0 set
    ∷ row OperandKind.bit r8 2 0 set
    ∷ row OperandKind.bit r8 2 0 set
    ∷ row OperandKind.bit r8 2 0 set
    ∷ row OperandKind.bit r8 2 0 set
    ∷ row OperandKind.bit r8 2 0 set
    ∷ row OperandKind.bit r16_addr 4 0 set
    ∷ row OperandKind.bit r8 2 0 set
    ∷ row OperandKind.bit r8 2 0 set
    ∷ row OperandKind.bit r8 2 0 set
    ∷ row OperandKind.bit r8 2 0 set
    ∷ row OperandKind.bit r8 2 0 set
    ∷ row OperandKind.bit r8 2 0 set
    ∷ row OperandKind.bit r8 2 0 set
    ∷ row OperandKind.bit r16_addr 4 0 set
    ∷ row OperandKind.bit r8 2 0 set
    ∷ row OperandKind.bit r8 2 0 set
    ∷ row OperandKind.bit r8 2 0 set
    ∷ row OperandKind.bit r8 2 0 set
    ∷ row OperandKind.bit r8 2 0 set
    ∷ row OperandKind.bit r8 2 0 set
    ∷ row OperandKind.bit r8 2 0 set
    ∷ row OperandKind.bit r16_addr 4 0 set
    ∷ row OperandKind.bit r8 2 0 set
    ∷ []
