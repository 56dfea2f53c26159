-- ===== src/Cpu/Operand.antt =====
-- The kinds of operand of src/cpu/inst_def.rs.
pub data OperandKind : Type 0 where
  implied : OperandKind
  r8 : OperandKind
  r16 : OperandKind
  imm8 : OperandKind
  imm16 : OperandKind
  r8_addr : OperandKind
  r16_addr : OperandKind
  imm8_addr : OperandKind
  imm16_addr : OperandKind
  flag_nz : OperandKind
  flag_z : OperandKind
  flag_nc : OperandKind
  flag_c : OperandKind
  bit : OperandKind
