-- ===== src/Cpu/Bitwise/Timing.antt =====
-- Every opcode behind the prefix takes its cycles, and keeps the processor and the bus in order.
use zenith_gb.Base.{
  ℕ, ◌+◌, ◌-◌, ◌^◌, ◌<◌, ◌≡◌, Bool, false, bit_and, bit_or, ◌==◌, arith, Returns, >>=-Returns,
  Returns-some, Returns-map, ltb, all_below_sound, refl, ap, ◌∙◌, true, if◌then◌else◌,
}
use zenith_gb.Base.Bits.{bit_and-le, bit_or-lt_two_pow}
use zenith_gb.Cpu.{flag_z}
use zenith_gb.Cpu.Bus.{Bus}
use zenith_gb.Cpu.Registers.{Cpu}
use zenith_gb.Cpu.Registers.Bounds.{IsReady-af, set_flag-lt, set_znhc-lt, set_znh-lt}
use zenith_gb.Cpu.Access.Timing.{Ran, read_r8_hladdr-Ran, write_r8_hladdr-Ran}
use zenith_gb.Cpu.Load.Bounds.{low_bits-lt, mid_bits-lt}
use zenith_gb.Cpu.Rotate.Laws.{
  KeepsWidth, rrc-KeepsWidth, rr-KeepsWidth, rlc-KeepsWidth, rl-KeepsWidth,
}
use zenith_gb.Cpu.Bitwise.{
  shift_left, shift_right_arithmetic, swap, shift_right, bit_index, modify, opcode_rlc, opcode_rrc,
  opcode_rl, opcode_rr, opcode_sla, opcode_sra, opcode_swap, opcode_srl, opcode_bit, opcode_res,
  opcode_set,
}

and-lt : (a m : ℕ) → m < 256 → bit_and a m < 256
and-lt a m h = omega (arith, (bit_and-le a m).1)

shift_left-KeepsWidth : KeepsWidth shift_left
shift_left-KeepsWidth v af v_lt lt = (
  and-lt _ 0xfe (omega arith),
  set_flag-lt flag_z _ _ (omega arith) (rlc-KeepsWidth v af v_lt lt).1,
)

shift_right_arithmetic-KeepsWidth : KeepsWidth shift_right_arithmetic
shift_right_arithmetic-KeepsWidth v af v_lt lt = (
  bit_or-lt_two_pow 8 _ _ (and-lt _ 0x7f (omega arith)) (and-lt _ 0x80 (omega arith)),
  set_flag-lt flag_z _ _ (omega arith) (rrc-KeepsWidth v af v_lt lt).1,
)

swap-KeepsWidth : KeepsWidth swap
swap-KeepsWidth v af v_lt lt =
    (bit_or-lt_two_pow 8 _ _ (omega arith) (omega arith), set_znhc-lt _ _ _ _ af lt)

shift_right-KeepsWidth : KeepsWidth shift_right
shift_right-KeepsWidth v af v_lt lt = (
  and-lt _ 0x7f (omega arith),
  set_flag-lt flag_z _ _ (omega arith) (rrc-KeepsWidth v af v_lt lt).1,
)

res-KeepsWidth : (i : ℕ) → KeepsWidth (λ val af. (bit_and val (255 - 2 ^ i), af))
res-KeepsWidth i v af v_lt lt = (omega (arith, (bit_and-le v (255 - 2 ^ i)).0), lt)

set-KeepsWidth : (i : ℕ) → i < 8 → KeepsWidth (λ val af. (bit_or val (2 ^ i), af))
set-KeepsWidth i i_lt v af v_lt lt =
    let small = all_below_sound 8 (λ k. ltb (2 ^ k) 256) i refl i_lt in
    (bit_or-lt_two_pow 8 v (2 ^ i) v_lt (ground arith), lt)

two_accesses :
    (b : Bool) (n : ℕ) → n + (if b then 1 else 0) + (if b then 1 else 0) ≡ n + (if b then 2 else 0)
two_accesses true n = omega arith
two_accesses false n = omega arith

module _ {S : Type 0} (bus : Bus S) (start : S) (n : ℕ) (cpu : Cpu) (soc : S)
    (ran : Ran bus start n cpu soc) (opcode : ℕ) where
  -- One access reads the byte at HL and one writes it; a register takes none.
  abbrev pub Modified : ℕ → Cpu → S → Type 0
  Modified accesses c s = Ran bus start (n + (if bit_and opcode 0x7 == 6 then accesses else 0)) c s

  modify-Ran :
      (change : ℕ → ℕ → ℕ × ℕ)
      → KeepsWidth change
      → Returns (λ (p : Cpu × S). Modified 2 p.0 p.1) (modify bus change opcode cpu soc)
  modify-Ran change keeps =
      >>=-Returns
        (read_r8_hladdr-Ran bus start n cpu soc ran (bit_and opcode 0x7) (low_bits-lt opcode))
        (λ p q.
          let (v_lt, af_lt) = keeps p.0 cpu.reg_af q.0 q.1.0.1 in
          let written =
            write_r8_hladdr-Ran bus start _ _ p.1 (IsReady-af cpu _ af_lt q.1.0, q.1.1, q.1.2) _ _
              (low_bits-lt opcode) v_lt in
          Returns-map (λ r s. (s.0, s.1, s.2 ∙ ap (λ k. bus.cycles start + k) (two_accesses _ n)))
            written)

  pub rlc-Ran : Returns (λ (p : Cpu × S). Modified 2 p.0 p.1) (opcode_rlc bus opcode cpu soc)
  unfolding opcode_rlc
  rlc-Ran = modify-Ran _ rlc-KeepsWidth

  pub rrc-Ran : Returns (λ (p : Cpu × S). Modified 2 p.0 p.1) (opcode_rrc bus opcode cpu soc)
  unfolding opcode_rrc
  rrc-Ran = modify-Ran _ rrc-KeepsWidth

  pub rl-Ran : Returns (λ (p : Cpu × S). Modified 2 p.0 p.1) (opcode_rl bus opcode cpu soc)
  unfolding opcode_rl
  rl-Ran = modify-Ran _ rl-KeepsWidth

  pub rr-Ran : Returns (λ (p : Cpu × S). Modified 2 p.0 p.1) (opcode_rr bus opcode cpu soc)
  unfolding opcode_rr
  rr-Ran = modify-Ran _ rr-KeepsWidth

  pub sla-Ran : Returns (λ (p : Cpu × S). Modified 2 p.0 p.1) (opcode_sla bus opcode cpu soc)
  unfolding opcode_sla
  sla-Ran = modify-Ran _ shift_left-KeepsWidth

  pub sra-Ran : Returns (λ (p : Cpu × S). Modified 2 p.0 p.1) (opcode_sra bus opcode cpu soc)
  unfolding opcode_sra
  sra-Ran = modify-Ran _ shift_right_arithmetic-KeepsWidth

  pub swap-Ran : Returns (λ (p : Cpu × S). Modified 2 p.0 p.1) (opcode_swap bus opcode cpu soc)
  unfolding opcode_swap
  swap-Ran = modify-Ran _ swap-KeepsWidth

  pub srl-Ran : Returns (λ (p : Cpu × S). Modified 2 p.0 p.1) (opcode_srl bus opcode cpu soc)
  unfolding opcode_srl
  srl-Ran = modify-Ran _ shift_right-KeepsWidth

  pub res-Ran : Returns (λ (p : Cpu × S). Modified 2 p.0 p.1) (opcode_res bus opcode cpu soc)
  unfolding opcode_res
  res-Ran = modify-Ran _ (res-KeepsWidth (bit_index opcode))

  pub set-Ran : Returns (λ (p : Cpu × S). Modified 2 p.0 p.1) (opcode_set bus opcode cpu soc)
  unfolding opcode_set
  set-Ran = modify-Ran _ (set-KeepsWidth (bit_index opcode) (mid_bits-lt opcode))

  pub bit-Ran : Returns (λ (p : Cpu × S). Modified 1 p.0 p.1) (opcode_bit bus opcode cpu soc)
  unfolding opcode_bit
  bit-Ran =
      >>=-Returns
        (read_r8_hladdr-Ran bus start n cpu soc ran (bit_and opcode 0x7) (low_bits-lt opcode))
        (λ p q.
          Returns-some (IsReady-af cpu _ (set_znh-lt _ _ _ cpu.reg_af q.1.0.1) q.1.0, q.1.1, q.1.2))
