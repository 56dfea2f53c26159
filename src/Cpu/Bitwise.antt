-- ===== src/Cpu/Bitwise.antt =====
-- The opcodes behind the prefix 0xCB of src/cpu/inst_impl.rs: rotations, shifts and bits of a
-- register or of the byte at HL.
pub mod Timing
use zenith_gb.Base.{
  ℕ, ◌-◌, ◌^◌, Bool, true, false, Option, some, bit_and, bit_or, u8, ◌<<<◌, ◌>>>◌, ◌==◌, ◌>>=◌,
}
use zenith_gb.Cpu.{set_flag, flag_z}
use zenith_gb.Cpu.Bus.{Bus}
use zenith_gb.Cpu.Registers.{Cpu, set_znhc, set_znh}
use zenith_gb.Cpu.Access.{clock_read_r8_hladdr, clock_write_r8_hladdr}
use zenith_gb.Cpu.Rotate.{rrc, rr, rlc, rl}

-- What each opcode makes of the byte and of AF.
abbrev shift_left : ℕ → ℕ → ℕ × ℕ
shift_left val af =
    let (rotated, af) = rlc val af in
    let new_val = bit_and rotated 0xfe in (new_val, set_flag flag_z (new_val == 0) af)

abbrev shift_right_arithmetic : ℕ → ℕ → ℕ × ℕ
shift_right_arithmetic val af =
    let high_bit = bit_and val 0x80 in
    let (rotated, af) = rrc val af in
    let new_val = bit_or (bit_and rotated 0x7f) high_bit in
    (new_val, set_flag flag_z (new_val == 0) af)

abbrev swap : ℕ → ℕ → ℕ × ℕ
swap val af =
    let low_4 = bit_and val 0xf in
    let new_val = bit_or (val >>> 4) (u8 (low_4 <<< 4)) in
    (new_val, set_znhc (new_val == 0) false false false af)

abbrev shift_right : ℕ → ℕ → ℕ × ℕ
shift_right val af =
    let (rotated, af) = rrc val af in
    let new_val = bit_and rotated 0x7f in (new_val, set_flag flag_z (new_val == 0) af)

-- The number of the bit in the opcode of `BIT`, `RES` and `SET`.
abbrev bit_index : ℕ → ℕ
bit_index opcode = bit_and (opcode >>> 3) 0x7

module _ {S : Type 0} (bus : Bus S) where
  -- Reading, changing and writing back, as all of these do but `BIT`.
  abbrev modify : (ℕ → ℕ → ℕ × ℕ) → ℕ → Cpu → S → Option (Cpu × S)
  modify change opcode cpu soc = do
    let reg = bit_and opcode 0x7
    (val, soc) ← clock_read_r8_hladdr bus reg cpu soc
    let (new_val, af) = change val cpu.reg_af
    clock_write_r8_hladdr bus reg new_val (record cpu { reg_af = af }) soc

  pub opcode_rlc : ℕ → Cpu → S → Option (Cpu × S)
  opcode_rlc = modify rlc

  pub opcode_rrc : ℕ → Cpu → S → Option (Cpu × S)
  opcode_rrc = modify rrc

  pub opcode_rl : ℕ → Cpu → S → Option (Cpu × S)
  opcode_rl = modify rl

  pub opcode_rr : ℕ → Cpu → S → Option (Cpu × S)
  opcode_rr = modify rr

  pub opcode_sla : ℕ → Cpu → S → Option (Cpu × S)
  opcode_sla = modify shift_left

  pub opcode_sra : ℕ → Cpu → S → Option (Cpu × S)
  opcode_sra = modify shift_right_arithmetic

  pub opcode_swap : ℕ → Cpu → S → Option (Cpu × S)
  opcode_swap = modify swap

  pub opcode_srl : ℕ → Cpu → S → Option (Cpu × S)
  opcode_srl = modify shift_right

  pub opcode_bit : ℕ → Cpu → S → Option (Cpu × S)
  opcode_bit opcode cpu soc = do
    let reg = bit_and opcode 0x7
    (val, soc) ← clock_read_r8_hladdr bus reg cpu soc
    let bit_set = bit_and (val >>> bit_index opcode) 0x1
    some (record cpu { reg_af = set_znh (bit_set == 0) false true cpu.reg_af }, soc)

  pub opcode_res : ℕ → Cpu → S → Option (Cpu × S)
  opcode_res opcode = modify (λ val af. (bit_and val (255 - 2 ^ bit_index opcode), af)) opcode

  pub opcode_set : ℕ → Cpu → S → Option (Cpu × S)
  opcode_set opcode = modify (λ val af. (bit_or val (2 ^ bit_index opcode), af)) opcode
