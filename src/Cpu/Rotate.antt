-- ===== src/Cpu/Rotate.antt =====
-- The rotations of src/cpu/inst_impl.rs through which the rotate and shift opcodes work.
--
-- They give the rotated byte and the word AF with its flags set.
pub mod Laws
use zenith_gb.Base.{ℕ, Bool, false, bit_and, bit_or, u16, ◌<<<◌, ◌>>>◌, ◌==◌, of_bool}
use zenith_gb.Util.{get_low}
use zenith_gb.Cpu.{get_flag, flag_c}
use zenith_gb.Cpu.Registers.{set_znhc}

pub rrc : (value reg_af : ℕ) → ℕ × ℕ
rrc value reg_af =
    let carry_bit = bit_and value 0x1 in
    let val_full = bit_or (value >>> 1) (carry_bit <<< 7) in
    let result = get_low val_full in
    (result, set_znhc (result == 0) false false (carry_bit == 0x1) reg_af)

pub rr : (value reg_af : ℕ) → ℕ × ℕ
rr value reg_af =
    let carry_flag = get_flag reg_af flag_c in
    let carry_next = bit_and value 0x1 in
    let val_full = bit_or (of_bool carry_flag <<< 7) (value >>> 1) in
    let result = get_low val_full in
    (result, set_znhc (result == 0) false false (carry_next == 0x1) reg_af)

pub rlc : (value reg_af : ℕ) → ℕ × ℕ
rlc value reg_af =
    let carry_bit = bit_and value 0x80 in
    let val_full = bit_or (u16 (value <<< 1)) (carry_bit >>> 7) in
    let result = get_low val_full in
    (result, set_znhc (result == 0) false false (carry_bit == 0x80) reg_af)

pub rl : (value reg_af : ℕ) → ℕ × ℕ
rl value reg_af =
    let carry_flag = get_flag reg_af flag_c in
    let carry_next = bit_and value 0x80 in
    let val_full = bit_or (u16 (value <<< 1)) (of_bool carry_flag) in
    let result = get_low val_full in
    (result, set_znhc (result == 0) false false (carry_next == 0x80) reg_af)
