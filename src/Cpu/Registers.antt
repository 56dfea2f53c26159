-- ===== src/Cpu/Registers.antt =====
-- src/cpu/register.rs and the registers of src/cpu/cpu.rs: the processor's state, its 8-bit and
-- 16-bit registers, and their numbers in an opcode.
--
-- The channel of the debugger's breakpoint is left out. A method that mutates the processor is a
-- function to the new state.
pub mod Bounds
use zenith_gb.Base.{
  ℕ, ◌+◌, Bool, true, false, Option, none, some, bit_and, u8, u16, ◌>>>◌, ◌==◌, wrapping_sub,
  if◌then◌else◌,
}
use zenith_gb.Util.{get_high, set_high, set_low}
use zenith_gb.Cpu.{get_f, set_flag, flag_c, flag_h, flag_n, flag_z}

-- `Reg8b`: one half of a word.
unfoldable pub get_reg8 : (high : Bool) → ℕ → ℕ
get_reg8 high addr = if high then u8 (addr >>> 8) else u8 (bit_and addr 0xff)

unfoldable pub set_reg8 : (high : Bool) → (val addr : ℕ) → ℕ
set_reg8 high val addr = if high then set_high addr val else set_low addr val

-- `Reg16b::dec` and `Reg16b::inc`, of which the code uses the old value, the new one or both.
unfoldable pub dec_reg16 : ℕ → ℕ
dec_reg16 addr = wrapping_sub 65536 addr 1

unfoldable pub inc_reg16 : ℕ → ℕ
inc_reg16 addr = u16 (addr + 1)

pub record Cpu : Type 0 where
  pub opcode : ℕ
  pub reg_af : ℕ
  pub reg_bc : ℕ
  pub reg_de : ℕ
  pub reg_hl : ℕ
  pub reg_sp : ℕ
  pub reg_pc : ℕ
  pub branch_skipped : Bool
  pub ime_next : Bool
  pub ime : Bool
  pub halted : Bool

-- `CPU::new`
pub new : Cpu
new = record {
  opcode = 0;
  reg_af = 0;
  reg_bc = 0;
  reg_de = 0;
  reg_hl = 0;
  reg_sp = 0;
  reg_pc = 0;
  branch_skipped = false;
  ime_next = false;
  ime = false;
  halted = false;
}

-- The 8-bit registers by their number in an opcode. 6 stands for the byte at HL, which is not a
-- register: a panic.
unfoldable pub read_r8 : ℕ → Cpu → Option ℕ
unfolding get_reg8
read_r8 r8_encoded cpu =
    if r8_encoded == 7
    then some (get_reg8 true cpu.reg_af)
    else if r8_encoded == 5
    then some (get_reg8 false cpu.reg_hl)
    else if r8_encoded == 4
    then some (get_reg8 true cpu.reg_hl)
    else if r8_encoded == 3
    then some (get_reg8 false cpu.reg_de)
    else if r8_encoded == 2
    then some (get_reg8 true cpu.reg_de)
    else if r8_encoded == 1
    then some (get_reg8 false cpu.reg_bc)
    else if r8_encoded == 0
    then some (get_reg8 true cpu.reg_bc)
    else none

unfoldable pub write_r8 : (r8_encoded val : ℕ) → Cpu → Option Cpu
unfolding set_reg8
write_r8 r8_encoded val cpu =
    if r8_encoded == 7
    then some (record cpu { reg_af = set_reg8 true val cpu.reg_af })
    else if r8_encoded == 5
    then some (record cpu { reg_hl = set_reg8 false val cpu.reg_hl })
    else if r8_encoded == 4
    then some (record cpu { reg_hl = set_reg8 true val cpu.reg_hl })
    else if r8_encoded == 3
    then some (record cpu { reg_de = set_reg8 false val cpu.reg_de })
    else if r8_encoded == 2
    then some (record cpu { reg_de = set_reg8 true val cpu.reg_de })
    else if r8_encoded == 1
    then some (record cpu { reg_bc = set_reg8 false val cpu.reg_bc })
    else if r8_encoded == 0
    then some (record cpu { reg_bc = set_reg8 true val cpu.reg_bc })
    else none

unfoldable pub read_r16 : ℕ → Cpu → Option ℕ
read_r16 r16_encoded cpu =
    if r16_encoded == 0
    then some cpu.reg_bc
    else if r16_encoded == 1
    then some cpu.reg_de
    else if r16_encoded == 2
    then some cpu.reg_hl
    else if r16_encoded == 3
    then some cpu.reg_sp
    else none

unfoldable pub write_r16 : (r16_encoded val : ℕ) → Cpu → Option Cpu
write_r16 r16_encoded val cpu =
    if r16_encoded == 0
    then some (record cpu { reg_bc = val })
    else if r16_encoded == 1
    then some (record cpu { reg_de = val })
    else if r16_encoded == 2
    then some (record cpu { reg_hl = val })
    else if r16_encoded == 3
    then some (record cpu { reg_sp = val })
    else none

-- The word that `PUSH` and `POP` number 3 is AF.
unfoldable pub read_r16stk_msb : ℕ → Cpu → Option ℕ
unfolding get_reg8
read_r16stk_msb r16_encoded cpu =
    if r16_encoded == 0
    then some (get_reg8 true cpu.reg_bc)
    else if r16_encoded == 1
    then some (get_reg8 true cpu.reg_de)
    else if r16_encoded == 2
    then some (get_reg8 true cpu.reg_hl)
    else if r16_encoded == 3
    then some (get_reg8 true cpu.reg_af)
    else none

unfoldable pub read_r16stk_lsb : ℕ → Cpu → Option ℕ
unfolding get_reg8
read_r16stk_lsb r16_encoded cpu =
    if r16_encoded == 0
    then some (get_reg8 false cpu.reg_bc)
    else if r16_encoded == 1
    then some (get_reg8 false cpu.reg_de)
    else if r16_encoded == 2
    then some (get_reg8 false cpu.reg_hl)
    else if r16_encoded == 3
    then some (get_reg8 false cpu.reg_af)
    else none

unfoldable pub write_r16stk : (r16_encoded val : ℕ) → Cpu → Option Cpu
write_r16stk r16_encoded val cpu =
    if r16_encoded == 0
    then some (record cpu { reg_bc = val })
    else if r16_encoded == 1
    then some (record cpu { reg_de = val })
    else if r16_encoded == 2
    then some (record cpu { reg_hl = val })
    else if r16_encoded == 3
    then some (record cpu { reg_af = bit_and val 0xfff0 })
    else none

-- The word AF after the usual sequence of four `set_flag`.
abbrev pub set_znhc : (z n h c : Bool) → ℕ → ℕ
set_znhc z n h c reg_af =
    set_flag flag_c c (set_flag flag_h h (set_flag flag_n n (set_flag flag_z z reg_af)))

-- The word AF after `set_flag` of Z, N and H.
abbrev pub set_znh : (z n h : Bool) → ℕ → ℕ
set_znh z n h reg_af = set_flag flag_h h (set_flag flag_n n (set_flag flag_z z reg_af))
