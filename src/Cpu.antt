-- ===== src/Cpu.antt =====
-- src/cpu: the flags of the processor (src/cpu/cpu.rs, src/cpu/register.rs) and the arithmetic on
-- the accumulator (src/cpu/inst_impl.rs).
--
-- These functions read and write the register pair AF alone, so they are functions of its word.
pub mod Flags
pub mod Arithmetic
pub mod Decimal
pub mod Bus
pub mod Machine
pub mod Operand
pub mod Registers
pub mod Access
pub mod Load
pub mod Rotate
pub mod Alu
pub mod Jump
pub mod Bitwise
pub mod Instruction
pub mod Table
pub mod Dispatch
pub mod Step
pub mod Init
mod Tests
use zenith_gb.Base.{
  ℕ, ◌+◌, ◌-◌, ◌*◌, ◌/◌, ◌%◌, ◌^◌, Bool, true, false, ◌&&◌, ◌||◌, not, bit_and, bit_or, bit_xor, u8,
  ◌<<<◌, ◌>>>◌, of_bool, ◌==◌, ◌!=◌, ltb, wrapping_sub, if◌then◌else◌,
}
use zenith_gb.Util.{get_low, set_high, set_low}

abbrev pub flag_c : ℕ
flag_c = 16

abbrev pub flag_h : ℕ
flag_h = 32

abbrev pub flag_n : ℕ
flag_n = 64

abbrev pub flag_z : ℕ
flag_z = 128

-- `self.a().get()` and `self.f().get()`
pub get_a : ℕ → ℕ
get_a reg_af = u8 (reg_af >>> 8)

pub get_f : ℕ → ℕ
get_f reg_af = u8 (bit_and reg_af 0xff)

pub get_flag : (reg_af flag : ℕ) → Bool
get_flag reg_af flag = bit_and (get_low reg_af) flag != 0

-- `!flag` on a `u8`.
pub set_flag : (flag : ℕ) → Bool → (reg_af : ℕ) → ℕ
set_flag flag value reg_af =
    let val = get_f reg_af in
    if value then set_low reg_af (bit_or val flag) else set_low reg_af (bit_and val (255 - flag))

pub add_a8 : (reg_af val carry : ℕ) → ℕ
add_a8 reg_af val carry =
    let dst_val = get_a reg_af in
    let sum_full = dst_val + val + carry in
    let sum_low = get_low sum_full in
    let af = set_flag flag_z (sum_low == 0) reg_af in
    let af = set_flag flag_n false af in
    let af = set_flag flag_h (ltb 0xf (bit_and dst_val 0xf + bit_and val 0xf + carry)) af in
    let af = set_flag flag_c (ltb 0xff sum_full) af in set_high af sum_low

-- The signed differences are compared with 0 as the sums on the two sides.
pub sub_a8 : (reg_af val carry : ℕ) → ℕ
sub_a8 reg_af val carry =
    let dst_val = get_a reg_af in
    let res_low = get_low ((dst_val + 65536 - val - carry) % 65536) in
    let af = set_flag flag_z (res_low == 0) reg_af in
    let af = set_flag flag_n true af in
    let af = set_flag flag_h (ltb (bit_and dst_val 0xf) (bit_and val 0xf + carry)) af in
    let af = set_flag flag_c (ltb dst_val (val + carry)) af in set_high af res_low

-- The common end of `and_a8`, `xor_a8` and `or_a8`.
abbrev pub logic_a8 : (half : Bool) → (result reg_af : ℕ) → ℕ
logic_a8 half result reg_af =
    let af = set_flag flag_z (result == 0) reg_af in
    let af = set_flag flag_n false af in
    let af = set_flag flag_h half af in let af = set_flag flag_c false af in set_high af result

pub and_a8 : (reg_af val : ℕ) → ℕ
and_a8 reg_af val = logic_a8 true (bit_and (get_a reg_af) val) reg_af

pub xor_a8 : (reg_af val : ℕ) → ℕ
xor_a8 reg_af val = logic_a8 false (bit_xor (get_a reg_af) val) reg_af

pub or_a8 : (reg_af val : ℕ) → ℕ
or_a8 reg_af val = logic_a8 false (bit_or (get_a reg_af) val) reg_af

pub cp_a8 : (reg_af val : ℕ) → ℕ
cp_a8 reg_af val = set_high (sub_a8 reg_af val 0) (get_a reg_af)

pub opcode_daa : ℕ → ℕ
opcode_daa reg_af =
    let original_val = get_a reg_af in
    let h = get_flag reg_af flag_h in
    let c = get_flag reg_af flag_c in
    let n = get_flag reg_af flag_n in
    let low = not n && ltb 0x9 (bit_and original_val 0xf) || h in
    let high = not n && ltb 0x99 original_val || c in
    let offset = bit_or (if low then 0x6 else 0) (if high then 0x60 else 0) in
    let daa_value =
      if n then wrapping_sub 256 original_val offset else u8 (original_val + offset) in
    let af = set_high reg_af daa_value in
    let af = set_flag flag_c high af in
    let af = set_flag flag_h false af in set_flag flag_z (daa_value == 0) af
