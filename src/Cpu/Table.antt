-- ===== src/Cpu/Table.antt =====
-- The instruction tables of src/cpu/inst_def.rs: 256 rows, and 256 behind the prefix 0xCB.
--
-- An index out of range is a panic, which a byte is not.
pub mod First
pub mod Second
pub mod CbFirst
pub mod CbSecond
use First.{instr_index_first}
use Second.{instr_index_second}
use CbFirst.{instr_index_cb_first}
use CbSecond.{instr_index_cb_second}
use zenith_gb.Base.{ℕ, List, ◌++◌, Option, get_elem?}
use zenith_gb.Cpu.Instruction.{Instruction}

abbrev pub instr_index : List Instruction
instr_index = instr_index_first ++ instr_index_second

abbrev pub instr_index_cb : List Instruction
instr_index_cb = instr_index_cb_first ++ instr_index_cb_second

unfoldable pub get_instruction : ℕ → Option Instruction
get_instruction opcode = get_elem? instr_index opcode

unfoldable pub get_instruction_cb : ℕ → Option Instruction
get_instruction_cb opcode = get_elem? instr_index_cb opcode
