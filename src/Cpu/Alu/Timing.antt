-- ===== src/Cpu/Alu/Timing.antt =====
-- Every arithmetic opcode takes its cycles, and keeps the processor and the bus in order.
use zenith_gb.Base.{
  ℕ, ◌+◌, ◌%◌, ◌<◌, ◌≡◌, Bool, true, false, not, bit_and, u8, ◌==◌, ltb, arith, wrapping_sub,
  Returns, >>=-Returns, Returns-some, debug_assert-Returns,
}
use zenith_gb.Base.Bits.{bit_and-le}
use zenith_gb.Cpu.{set_flag, flag_c, flag_h, flag_n}
use zenith_gb.Cpu.Bus.{Bus}
use zenith_gb.Cpu.Operand.{
  OperandKind, implied, r8, r16, imm8, imm16, r8_addr, r16_addr, imm8_addr, imm16_addr, flag_nz,
  flag_nc, bit,
}
use zenith_gb.Cpu.Registers.{Cpu, set_znh}
use zenith_gb.Cpu.Registers.Bounds.{
  IsReady-af, IsReady-hl, IsReady-sp, set_flag-lt, set_znh-lt, set_znhc-lt, read_r8_lem,
  read_r16_lem, write_r16_lem,
}
use zenith_gb.Cpu.Access.{clock_consume_src_r8_imm8_hladdr}
use zenith_gb.Cpu.Access.Timing.{Ran, clock-Ran, read-Ran, write-Ran, consume-Ran}
use zenith_gb.Cpu.Load.{sign_extend, sp_flags}
use zenith_gb.Cpu.Load.Bounds.{low_bits-lt, pair_bits-lt, ne_eq}
use zenith_gb.Cpu.Alu.{
  with_af, with_operand, opcode_inc_r16, opcode_dec_r16, opcode_inc_r16addr, opcode_dec_r16addr,
  opcode_add_hl_r16, opcode_add_sp_e8, opcode_add_r8_imm8_hladdr, opcode_adc, opcode_sub,
  opcode_sbc, opcode_and, opcode_xor, opcode_or, opcode_cp,
}
use zenith_gb.Cpu.Alu.Bounds.{add_a8-lt, sub_a8-lt, and_a8-lt, xor_a8-lt, or_a8-lt, cp_a8-lt}

-- What an operand costs: a register none, the byte at HL and an immediate byte one.
abbrev pub operand_cycles : OperandKind → ℕ
operand_cycles r8 = 0
operand_cycles _ = 1

-- The operands that the routines on the accumulator take.
abbrev pub is_operand : OperandKind → ℕ → Bool
is_operand r8 opcode = not (bit_and opcode 0x7 == 6)
is_operand r16_addr opcode = true
is_operand imm8 opcode = true
is_operand _ opcode = false

module _ {S : Type 0} (bus : Bus S) (start : S) (n : ℕ) (cpu : Cpu) (soc : S)
    (ran : Ran bus start n cpu soc) (opcode : ℕ) where
  pub operand-Ran :
      (src : OperandKind)
      → is_operand src opcode ≡ true
      → Returns
          (λ (p : ℕ × Cpu × S). (p.0 < 256) × Ran bus start (n + operand_cycles src) p.1 p.2)
          (clock_consume_src_r8_imm8_hladdr bus src opcode cpu soc)
  unfolding clock_consume_src_r8_imm8_hladdr
  operand-Ran r8 e =
      let ne : (bit_and opcode 0x7 == 6) ≡ false = ground arith in
      debug_assert-Returns (ne_eq _ 6 ne) (
        debug_assert-Returns (ground (arith, low_bits-lt opcode)) (
          >>=-Returns (read_r8_lem _ cpu (low_bits-lt opcode) ne)
            (λ v lt. Returns-some (lt, (ran.0, ran.1, omega arith)))))
  operand-Ran r16_addr e =
      >>=-Returns (read-Ran bus start n cpu soc ran cpu.reg_hl ran.0.4) (λ p q. Returns-some q)
  operand-Ran imm8 e = consume-Ran bus start n cpu soc ran
  operand-Ran implied e = absurd (ground arith)
  operand-Ran r16 e = absurd (ground arith)
  operand-Ran imm16 e = absurd (ground arith)
  operand-Ran r8_addr e = absurd (ground arith)
  operand-Ran imm8_addr e = absurd (ground arith)
  operand-Ran imm16_addr e = absurd (ground arith)
  operand-Ran flag_nz e = absurd (ground arith)
  operand-Ran OperandKind.flag_z e = absurd (ground arith)
  operand-Ran flag_nc e = absurd (ground arith)
  operand-Ran OperandKind.flag_c e = absurd (ground arith)
  operand-Ran bit e = absurd (ground arith)

  with_operand-Ran :
      (f : ℕ → ℕ → ℕ)
      → ((af val : ℕ) → val < 256 → f af val < 65536)
      → (src : OperandKind) → is_operand src opcode ≡ true
      → Returns
          (λ (p : Cpu × S). Ran bus start (n + operand_cycles src) p.0 p.1)
          (with_operand bus f src opcode cpu soc)
  with_operand-Ran f word src e =
      >>=-Returns (operand-Ran src e)
        (λ p q. Returns-some (IsReady-af p.1 _ (word p.1.reg_af p.0 q.0) q.1.0, q.1.1, q.1.2))

  pub add_r8_imm8_hladdr-Ran :
      (src : OperandKind)
      → is_operand src opcode ≡ true
      → Returns
          (λ (p : Cpu × S). Ran bus start (n + operand_cycles src) p.0 p.1)
          (opcode_add_r8_imm8_hladdr bus src opcode cpu soc)
  unfolding opcode_add_r8_imm8_hladdr
  add_r8_imm8_hladdr-Ran = with_operand-Ran _ (λ af val lt. add_a8-lt af val 0)

  pub adc-Ran :
      (src : OperandKind)
      → is_operand src opcode ≡ true
      → Returns
          (λ (p : Cpu × S). Ran bus start (n + operand_cycles src) p.0 p.1)
          (opcode_adc bus src opcode cpu soc)
  unfolding opcode_adc
  adc-Ran = with_operand-Ran _ (λ af val lt. add_a8-lt af val _)

  pub sub-Ran :
      (src : OperandKind)
      → is_operand src opcode ≡ true
      → Returns
          (λ (p : Cpu × S). Ran bus start (n + operand_cycles src) p.0 p.1)
          (opcode_sub bus src opcode cpu soc)
  unfolding opcode_sub
  sub-Ran = with_operand-Ran _ (λ af val lt. sub_a8-lt af val 0)

  pub sbc-Ran :
      (src : OperandKind)
      → is_operand src opcode ≡ true
      → Returns
          (λ (p : Cpu × S). Ran bus start (n + operand_cycles src) p.0 p.1)
          (opcode_sbc bus src opcode cpu soc)
  unfolding opcode_sbc
  sbc-Ran = with_operand-Ran _ (λ af val lt. sub_a8-lt af val _)

  pub and-Ran :
      (src : OperandKind)
      → is_operand src opcode ≡ true
      → Returns
          (λ (p : Cpu × S). Ran bus start (n + operand_cycles src) p.0 p.1)
          (opcode_and bus src opcode cpu soc)
  unfolding opcode_and
  and-Ran = with_operand-Ran _ (λ af val lt. and_a8-lt af val)

  pub xor-Ran :
      (src : OperandKind)
      → is_operand src opcode ≡ true
      → Returns
          (λ (p : Cpu × S). Ran bus start (n + operand_cycles src) p.0 p.1)
          (opcode_xor bus src opcode cpu soc)
  unfolding opcode_xor
  xor-Ran = with_operand-Ran _ xor_a8-lt

  pub or-Ran :
      (src : OperandKind)
      → is_operand src opcode ≡ true
      → Returns
          (λ (p : Cpu × S). Ran bus start (n + operand_cycles src) p.0 p.1)
          (opcode_or bus src opcode cpu soc)
  unfolding opcode_or
  or-Ran = with_operand-Ran _ or_a8-lt

  pub cp-Ran :
      (src : OperandKind)
      → is_operand src opcode ≡ true
      → Returns
          (λ (p : Cpu × S). Ran bus start (n + operand_cycles src) p.0 p.1)
          (opcode_cp bus src opcode cpu soc)
  unfolding opcode_cp
  cp-Ran = with_operand-Ran _ (λ af val lt. cp_a8-lt af val)

  pub inc_r16-Ran :
      Returns (λ (p : Cpu × S). Ran bus start (n + 1) p.0 p.1) (opcode_inc_r16 bus opcode cpu soc)
  unfolding opcode_inc_r16
  inc_r16-Ran = >>=-Returns (read_r16_lem _ cpu (pair_bits-lt opcode) ran.0) (λ w lt.
      >>=-Returns (write_r16_lem _ ((w + 1) % 65536) cpu (pair_bits-lt opcode) (omega arith) ran.0)
        (λ c ready.
          >>=-Returns (clock-Ran bus start n c soc (ready, ran.1, ran.2)) (λ t r. Returns-some r)))

  pub dec_r16-Ran :
      Returns (λ (p : Cpu × S). Ran bus start (n + 1) p.0 p.1) (opcode_dec_r16 bus opcode cpu soc)
  unfolding opcode_dec_r16
  dec_r16-Ran = >>=-Returns (read_r16_lem _ cpu (pair_bits-lt opcode) ran.0) (λ w lt.
      >>=-Returns
        (write_r16_lem _ (wrapping_sub 65536 w 1) cpu (pair_bits-lt opcode) (omega arith) ran.0)
        (λ c ready.
          >>=-Returns (clock-Ran bus start n c soc (ready, ran.1, ran.2)) (λ t r. Returns-some r)))

  pub inc_r16addr-Ran :
      (opcode == 0x34) ≡ true
      → Returns
          (λ (p : Cpu × S). Ran bus start (n + 1 + 1) p.0 p.1)
          (opcode_inc_r16addr bus opcode cpu soc)
  unfolding opcode_inc_r16addr
  inc_r16addr-Ran e = debug_assert-Returns e (
      >>=-Returns (read-Ran bus start n cpu soc ran cpu.reg_hl ran.0.4) (λ p q.
        let v = u8 (p.0 + 1) in
        let cpu1 = with_af (set_znh (v == 0) false (bit_and v 0xf == 0)) cpu in
        let ready = IsReady-af cpu _ (set_znh-lt _ _ _ cpu.reg_af q.1.0.1) q.1.0 in
        >>=-Returns
          (write-Ran bus start (n + 1) cpu1 p.1 (ready, q.1.1, q.1.2) cpu.reg_hl v ran.0.4
            (omega arith))
          (λ t r. Returns-some r)))

  pub dec_r16addr-Ran :
      (opcode == 0x35) ≡ true
      → Returns
          (λ (p : Cpu × S). Ran bus start (n + 1 + 1) p.0 p.1)
          (opcode_dec_r16addr bus opcode cpu soc)
  unfolding opcode_dec_r16addr
  dec_r16addr-Ran e = debug_assert-Returns e (
      >>=-Returns (read-Ran bus start n cpu soc ran cpu.reg_hl ran.0.4) (λ p q.
        let v = wrapping_sub 256 p.0 1 in
        let cpu1 = with_af (set_znh (v == 0) true (bit_and v 0xf == 0xf)) cpu in
        let ready = IsReady-af cpu _ (set_znh-lt _ _ _ cpu.reg_af q.1.0.1) q.1.0 in
        >>=-Returns
          (write-Ran bus start (n + 1) cpu1 p.1 (ready, q.1.1, q.1.2) cpu.reg_hl v ran.0.4
            (omega arith))
          (λ t r. Returns-some r)))

  pub add_hl_r16-Ran :
      Returns
        (λ (p : Cpu × S). Ran bus start (n + 1) p.0 p.1)
        (opcode_add_hl_r16 bus opcode cpu soc)
  unfolding opcode_add_hl_r16
  add_hl_r16-Ran = >>=-Returns (read_r16_lem _ cpu (pair_bits-lt opcode) ran.0) (λ w lt.
      let half = ltb 0xfff (bit_and cpu.reg_hl 0xfff + bit_and w 0xfff) in
      let carry = ltb 0xffff (w + cpu.reg_hl) in
      let n_lt = set_flag-lt flag_n false cpu.reg_af (omega arith) ran.0.1 in
      let h_lt = set_flag-lt flag_h half _ (omega arith) n_lt in
      let c_lt = set_flag-lt flag_c carry _ (omega arith) h_lt in
      let cpu1 =
        with_af (λ af. set_flag flag_c carry (set_flag flag_h half (set_flag flag_n false af)))
          cpu in
      let hl_lt : bit_and (w + cpu.reg_hl) 0xffff < 65536 =
        omega (arith, (bit_and-le (w + cpu.reg_hl) 0xffff).1) in
      let cpu2 = record cpu1 { reg_hl = bit_and (w + cpu.reg_hl) 0xffff } in
      let ready = IsReady-hl cpu1 _ hl_lt (IsReady-af cpu _ c_lt ran.0) in
      >>=-Returns (clock-Ran bus start n cpu2 soc (ready, ran.1, ran.2)) (λ t r. Returns-some r))

  pub add_sp_e8-Ran :
      (opcode == 0xe8) ≡ true
      → Returns
          (λ (p : Cpu × S). Ran bus start (n + 1 + 1 + 1) p.0 p.1)
          (opcode_add_sp_e8 bus opcode cpu soc)
  unfolding opcode_add_sp_e8
  add_sp_e8-Ran e = debug_assert-Returns e (
      >>=-Returns (consume-Ran bus start n cpu soc ran) (λ p q.
        let sum = (p.1.reg_sp + sign_extend p.0) % 65536 in
        let cpu1 = with_af (sp_flags p.1.reg_sp p.0 sum) p.1 in
        let ready = IsReady-af p.1 _ (set_znhc-lt _ _ _ _ p.1.reg_af q.1.0.1) q.1.0 in
        >>=-Returns (clock-Ran bus start (n + 1) cpu1 p.2 (ready, q.1.1, q.1.2)) (λ t r.
          >>=-Returns (clock-Ran bus start (n + 1 + 1) cpu1 t r)
            (λ u v. Returns-some (IsReady-sp cpu1 sum (omega arith) v.0, v.1, v.2)))))
