-- ===== src/Cpu/Alu/Bounds.antt =====
-- What the arithmetic opcodes leave in the registers keeps to their widths.
use zenith_gb.Base.{
  ℕ, ◌+◌, ◌-◌, ◌<◌, ◌≡◌, true, false, bit_and, u8, ◌>>>◌, ◌==◌, arith, wrapping_sub, if_cases,
  Returns, >>=-Returns, Returns-some, debug_assert-Returns,
}
use zenith_gb.Base.Bits.{bit_and-le, bit_or-lt_two_pow, bit_xor-lt_two_pow}
use zenith_gb.Util.{set_high}
use zenith_gb.Util.Bytes.{set_high_lem, get_low-lt}
use zenith_gb.Cpu.{
  get_a, get_flag, flag_c, flag_h, flag_n, flag_z, add_a8, sub_a8, and_a8, xor_a8, or_a8, cp_a8,
  opcode_daa,
}
use zenith_gb.Cpu.Registers.{Cpu}
use zenith_gb.Cpu.Registers.Bounds.{
  IsReady, IsReady-af, set_flag-lt, set_znh-lt, read_r8_lem, write_r8_lem,
}
use zenith_gb.Cpu.Load.Bounds.{get_a-lt, mid_bits-lt, ne_eq}
use zenith_gb.Cpu.Rotate.Laws.{
  KeepsWidth, rrc-KeepsWidth, rr-KeepsWidth, rlc-KeepsWidth, rl-KeepsWidth,
}
use zenith_gb.Cpu.Alu.{
  rotate_a, opcode_inc_r8, opcode_dec_r8, opcode_rlca, opcode_rrca, opcode_rla, opcode_rra,
  opcode_cpl, opcode_scf, opcode_ccf,
}

set_high-lt : (w v : ℕ) → v < 256 → set_high w v < 65536
set_high-lt w v lt = omega (arith, set_high_lem w v lt)

-- Routines on AF that leave a word.
pub add_a8-lt : (af val carry : ℕ) → add_a8 af val carry < 65536
unfolding add_a8
add_a8-lt af val carry = set_high-lt _ _ (get_low-lt _)

pub sub_a8-lt : (af val carry : ℕ) → sub_a8 af val carry < 65536
unfolding sub_a8
sub_a8-lt af val carry = set_high-lt _ _ (get_low-lt _)

pub and_a8-lt : (af val : ℕ) → and_a8 af val < 65536
unfolding and_a8
and_a8-lt af val = set_high-lt _ _ (omega (arith, (bit_and-le (get_a af) val).0, get_a-lt af))

pub xor_a8-lt : (af val : ℕ) → val < 256 → xor_a8 af val < 65536
unfolding xor_a8
xor_a8-lt af val lt = set_high-lt _ _ (bit_xor-lt_two_pow 8 (get_a af) val (get_a-lt af) lt)

pub or_a8-lt : (af val : ℕ) → val < 256 → or_a8 af val < 65536
unfolding or_a8
or_a8-lt af val lt = set_high-lt _ _ (bit_or-lt_two_pow 8 (get_a af) val (get_a-lt af) lt)

pub cp_a8-lt : (af val : ℕ) → cp_a8 af val < 65536
unfolding cp_a8
cp_a8-lt af val = set_high-lt _ _ (get_a-lt af)

pub daa-lt : (af : ℕ) → af < 65536 → opcode_daa af < 65536
unfolding opcode_daa
daa-lt af lt =
    let v_lt = if_cases (λ v. v < 256) (get_flag af flag_n) (λ e. omega arith) (λ e. omega arith) in
    let c_lt = set_flag-lt flag_c _ _ (omega arith) (set_high-lt af _ v_lt) in
    let h_lt = set_flag-lt flag_h false _ (omega arith) c_lt in
    set_flag-lt flag_z _ _ (omega arith) h_lt

pub inc_r8-IsReady :
    (opcode : ℕ) (cpu : Cpu)
    → (bit_and (opcode >>> 3) 0x7 == 6) ≡ false
    → IsReady cpu
    → Returns IsReady (opcode_inc_r8 opcode cpu)
unfolding opcode_inc_r8
inc_r8-IsReady opcode cpu dst ready = debug_assert-Returns (ne_eq _ 6 dst) (
    >>=-Returns (read_r8_lem _ cpu (mid_bits-lt opcode) dst) (λ v lt.
      write_r8_lem _ (u8 (v + 1)) _ (mid_bits-lt opcode) dst (omega arith)
        (IsReady-af cpu _ (set_znh-lt _ _ _ cpu.reg_af ready.1) ready)))

pub dec_r8-IsReady :
    (opcode : ℕ) (cpu : Cpu)
    → (bit_and (opcode >>> 3) 0x7 == 6) ≡ false
    → IsReady cpu
    → Returns IsReady (opcode_dec_r8 opcode cpu)
unfolding opcode_dec_r8
dec_r8-IsReady opcode cpu dst ready = debug_assert-Returns (ne_eq _ 6 dst) (
    >>=-Returns (read_r8_lem _ cpu (mid_bits-lt opcode) dst) (λ v lt.
      write_r8_lem _ (wrapping_sub 256 v 1) _ (mid_bits-lt opcode) dst (omega arith)
        (IsReady-af cpu _ (set_znh-lt _ _ _ cpu.reg_af ready.1) ready)))

rotate_a-IsReady :
    (f : ℕ → ℕ → ℕ × ℕ) → KeepsWidth f → (cpu : Cpu) → IsReady cpu → IsReady (rotate_a f cpu)
rotate_a-IsReady f keeps cpu ready =
    let (v_lt, af_lt) = keeps (get_a cpu.reg_af) cpu.reg_af (get_a-lt cpu.reg_af) ready.1 in
    IsReady-af cpu _ (set_flag-lt flag_z false _ (omega arith) (set_high-lt _ _ v_lt)) ready

module _ (opcode : ℕ) (cpu : Cpu) (ready : IsReady cpu) where
  pub rlca-IsReady : (opcode == 0x07) ≡ true → Returns IsReady (opcode_rlca opcode cpu)
  unfolding opcode_rlca
  rlca-IsReady e =
      debug_assert-Returns e (Returns-some (rotate_a-IsReady _ rlc-KeepsWidth cpu ready))

  pub rrca-IsReady : (opcode == 0x0f) ≡ true → Returns IsReady (opcode_rrca opcode cpu)
  unfolding opcode_rrca
  rrca-IsReady e =
      debug_assert-Returns e (Returns-some (rotate_a-IsReady _ rrc-KeepsWidth cpu ready))

  pub rla-IsReady : (opcode == 0x17) ≡ true → Returns IsReady (opcode_rla opcode cpu)
  unfolding opcode_rla
  rla-IsReady e = debug_assert-Returns e (Returns-some (rotate_a-IsReady _ rl-KeepsWidth cpu ready))

  pub rra-IsReady : (opcode == 0x1f) ≡ true → Returns IsReady (opcode_rra opcode cpu)
  unfolding opcode_rra
  rra-IsReady e = debug_assert-Returns e (Returns-some (rotate_a-IsReady _ rr-KeepsWidth cpu ready))

module _ (cpu : Cpu) (ready : IsReady cpu) where
  pub cpl-IsReady : IsReady (opcode_cpl cpu)
  unfolding opcode_cpl
  cpl-IsReady =
      let a_lt = set_high-lt cpu.reg_af (255 - get_a cpu.reg_af) (omega arith) in
      let n_lt = set_flag-lt flag_n true _ (omega arith) a_lt in
      IsReady-af cpu _ (set_flag-lt flag_h true _ (omega arith) n_lt) ready

  pub scf-IsReady : IsReady (opcode_scf cpu)
  unfolding opcode_scf
  scf-IsReady =
      let c_lt = set_flag-lt flag_c true cpu.reg_af (omega arith) ready.1 in
      let n_lt = set_flag-lt flag_n false _ (omega arith) c_lt in
      IsReady-af cpu _ (set_flag-lt flag_h false _ (omega arith) n_lt) ready

  pub ccf-IsReady : IsReady (opcode_ccf cpu)
  unfolding opcode_ccf
  ccf-IsReady =
      let c_lt = set_flag-lt flag_c _ cpu.reg_af (omega arith) ready.1 in
      let n_lt = set_flag-lt flag_n false _ (omega arith) c_lt in
      IsReady-af cpu _ (set_flag-lt flag_h false _ (omega arith) n_lt) ready
