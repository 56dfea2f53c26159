-- ===== src/Cpu/Dispatch/Cycles.antt =====
-- Every opcode takes what its row of the instruction table says.

use zenith_gb.Base.{
  ℕ, ◌+◌, ◌≤◌, ◌<◌, ◌≡◌, refl, true, false, Option, ◌==◌, leb→le, arith, Returns, >>=-Returns,
  Returns-some, Returns-map, if◌then◌else◌,
}
use zenith_gb.Cpu.Bus.{Bus}
use zenith_gb.Cpu.Operand.{OperandKind}
use zenith_gb.Cpu.Registers.{Cpu}
use zenith_gb.Cpu.Registers.Bounds.{IsReady, IsReady-af}
use zenith_gb.Cpu.Access.Timing.{Ran}
use zenith_gb.Cpu.Load.Timing.{
  ld_r8_imm8-Ran, ld_a_bcaddr-Ran, ld_a_deaddr-Ran, ld_a_hliaddr-Ran, ld_a_hldaddr-Ran,
  ld_r8_hladdr-Ran, ld_a_imm16addr-Ran, ld_hl_spi-Ran, ld_sp_hl-Ran, ld_r16_imm16-Ran,
  ld_hliaddr_a-Ran, ld_hldaddr_a-Ran, ld_bcaddr_a-Ran, ld_deaddr_a-Ran, hladdr_r8-Ran,
  hladdr_imm8-Ran, r8addr_a-Ran, imm16addr_a-Ran, r8_c-Ran, ldh_r8addr_a-Ran, ldh_a_r8addr-Ran,
}
use zenith_gb.Cpu.Load.Bounds.{ld_r8_r8-IsReady}
use zenith_gb.Cpu.Alu.Timing.{
  inc_r16-Ran, dec_r16-Ran, inc_r16addr-Ran, dec_r16addr-Ran, add_hl_r16-Ran, add_sp_e8-Ran,
  add_r8_imm8_hladdr-Ran, adc-Ran, sub-Ran, sbc-Ran, and-Ran, xor-Ran, or-Ran, cp-Ran,
}
use zenith_gb.Cpu.Alu.Bounds.{
  daa-lt, inc_r8-IsReady, dec_r8-IsReady, rlca-IsReady, rrca-IsReady, rla-IsReady, rra-IsReady,
  cpl-IsReady, scf-IsReady, ccf-IsReady,
}
use zenith_gb.Cpu.Jump.Timing.{
  Ends, jp_hl-IsReady, di-IsReady, ei-IsReady, stop-Ran, halt-Ran, jr_e8-Ran, jr_cc-Ends, ret-Ran,
  push_opcode-Ran, pop_opcode-Ran, rst-Ran, reti-Ran,
}
use zenith_gb.Cpu.Jump.Branches.{ret_cc-Ends, jp_cc-Ends, call_cc-Ends, jp_a16-Ran, call_a16-Ran}
use zenith_gb.Cpu.Bitwise.Timing.{
  rlc-Ran, rrc-Ran, rl-Ran, rr-Ran, sla-Ran, sra-Ran, swap-Ran, srl-Ran, bit-Ran, res-Ran, set-Ran,
}
use zenith_gb.Cpu.Instruction.{
  OpcodeFn, Instruction, nop, ld_r16_imm16, ld_bcaddr_a, inc_r16, inc_r8, dec_r8, ld_r8_imm8, rlca,
  imm16addr_r16, add_hl_r16, ld_a_bcaddr, dec_r16, rrca, stop, ld_deaddr_a, rla, jr_e8, ld_a_deaddr,
  rra, jr_cc, ld_hliaddr_a, daa, ld_a_hliaddr, cpl, ld_hldaddr_a, inc_r16addr, dec_r16addr,
  hladdr_imm8, scf, ld_a_hldaddr, ccf, ld_b_b, ld_r8_r8, ld_r8_hladdr, hladdr_r8, halt,
  add_r8_imm8_hladdr, adc, sub, sbc, and, xor, or, cp, ret_cc, pop, jp_cc, jp_a16, call_cc, push,
  rst, ret, prefix, call_a16, illegal_d3, reti, illegal_db, illegal_dd, ldh_r8addr_a, r8addr_a,
  illegal_e3, illegal_e4, add_sp_e8, jp_hl, imm16addr_a, illegal_eb, illegal_ec, illegal_ed,
  ldh_a_r8addr, r8_c, di, illegal_f4, ld_hl_spi, ld_sp_hl, ld_a_imm16addr, ei, illegal_fc,
  illegal_fd, rlc, rrc, rl, rr, sla, sra, swap, srl, bit, res, set,
}
use zenith_gb.Cpu.Dispatch.{opcode_nop, opcode_ld_b_b, on_registers, call_fn, exec}
use zenith_gb.Cpu.Dispatch.Costs.{expects, taken_cycles, is_skipped_cost}

-- From the bus `start` on, the cycles of a row have passed but for `k` that are still to come.
abbrev pub Fits : {S : Type 0} → Bus S → S → (k taken skipped : ℕ) → Cpu → S → Type 0
Fits bus start k taken skipped cpu soc =
    IsReady (record cpu { branch_skipped = false })
    × bus.IsValid soc
    × (bus.cycles soc + k ≡ bus.cycles start + (if cpu.branch_skipped then skipped else taken))
    × (bus.cycles start ≤ bus.cycles soc)

module _ {S : Type 0} (bus : Bus S) (start : S) (cpu : Cpu) (soc : S)
    (ran : Ran bus start 0 cpu soc) (k : ℕ) where
  fit :
      (n cycles cycles_skipped : ℕ) {m : Option (Cpu × S)}
      → cycles ≡ n + k
      → Returns (λ (p : Cpu × S). Ran bus start n p.0 p.1) m
      → Returns (λ (p : Cpu × S). Fits bus start k cycles cycles_skipped p.0 p.1) m
  fit n cycles cycles_skipped c m =
      Returns-map
        (λ p (r, valid, passed).
          ((r.0, r.1, r.2, r.3, r.4, r.5, r.6, refl), valid, simp (r.7) (omega arith), omega arith))
        m

  fit_branch :
      (n skipped cycles cycles_skipped : ℕ) {m : Option (Cpu × S)}
      → cycles ≡ n + k
      → (cycles_skipped == skipped + k) ≡ true
      → Returns (λ (p : Cpu × S). Ends bus start n skipped p.0 p.1) m
      → Returns (λ (p : Cpu × S). Fits bus start k cycles cycles_skipped p.0 p.1) m
  fit_branch n skipped cycles cycles_skipped c s m =
      Returns-map (λ p (r, valid, passed). (r, valid, ground arith, ground arith)) m

  lift :
      {m : Option Cpu}
      → Returns IsReady m
      → Returns (λ (p : Cpu × S). Ran bus start 0 p.0 p.1) (on_registers m soc)
  lift m = >>=-Returns m (λ c ready. Returns-some (ready, ran.1, ran.2))

  -- Function by function.
  call_fn-Fits :
      (f : OpcodeFn) (src : OperandKind) (opcode cycles cycles_skipped : ℕ)
      → opcode < 256
      → expects f src opcode ≡ true
      → cycles ≡ taken_cycles f src opcode + k
      → is_skipped_cost f k cycles_skipped ≡ true
      → Returns
          (λ (p : Cpu × S). Fits bus start k cycles cycles_skipped p.0 p.1)
          (call_fn bus f src opcode cpu soc)
  unfolding opcode_nop opcode_ld_b_b
  call_fn-Fits nop src opcode cycles cycles_skipped op_lt e c s = fit _ _ _ c (Returns-some ran)
  call_fn-Fits ld_r16_imm16 src opcode cycles cycles_skipped op_lt e c s =
      fit _ _ _ c (ld_r16_imm16-Ran bus start 0 cpu soc ran opcode e)
  call_fn-Fits ld_bcaddr_a src opcode cycles cycles_skipped op_lt e c s =
      fit _ _ _ c (ld_bcaddr_a-Ran bus start 0 cpu soc ran opcode e)
  call_fn-Fits inc_r16 src opcode cycles cycles_skipped op_lt e c s =
      fit _ _ _ c (inc_r16-Ran bus start 0 cpu soc ran opcode)
  call_fn-Fits inc_r8 src opcode cycles cycles_skipped op_lt e c s =
      fit _ _ _ c (lift (inc_r8-IsReady opcode cpu (ground arith) ran.0))
  call_fn-Fits dec_r8 src opcode cycles cycles_skipped op_lt e c s =
      fit _ _ _ c (lift (dec_r8-IsReady opcode cpu (ground arith) ran.0))
  call_fn-Fits ld_r8_imm8 src opcode cycles cycles_skipped op_lt e c s =
      fit _ _ _ c (ld_r8_imm8-Ran bus start 0 cpu soc ran opcode (ground arith))
  call_fn-Fits rlca src opcode cycles cycles_skipped op_lt e c s =
      fit _ _ _ c (lift (rlca-IsReady opcode cpu ran.0 e))
  call_fn-Fits imm16addr_r16 src opcode cycles cycles_skipped op_lt e c s = absurd (ground arith)
  call_fn-Fits add_hl_r16 src opcode cycles cycles_skipped op_lt e c s =
      fit _ _ _ c (add_hl_r16-Ran bus start 0 cpu soc ran opcode)
  call_fn-Fits ld_a_bcaddr src opcode cycles cycles_skipped op_lt e c s =
      fit _ _ _ c (ld_a_bcaddr-Ran bus start 0 cpu soc ran opcode e)
  call_fn-Fits dec_r16 src opcode cycles cycles_skipped op_lt e c s =
      fit _ _ _ c (dec_r16-Ran bus start 0 cpu soc ran opcode)
  call_fn-Fits rrca src opcode cycles cycles_skipped op_lt e c s =
      fit _ _ _ c (lift (rrca-IsReady opcode cpu ran.0 e))
  call_fn-Fits stop src opcode cycles cycles_skipped op_lt e c s =
      fit _ _ _ c (stop-Ran bus start 0 cpu soc ran opcode e)
  call_fn-Fits ld_deaddr_a src opcode cycles cycles_skipped op_lt e c s =
      fit _ _ _ c (ld_deaddr_a-Ran bus start 0 cpu soc ran opcode e)
  call_fn-Fits rla src opcode cycles cycles_skipped op_lt e c s =
      fit _ _ _ c (lift (rla-IsReady opcode cpu ran.0 e))
  call_fn-Fits jr_e8 src opcode cycles cycles_skipped op_lt e c s =
      fit _ _ _ c (jr_e8-Ran bus start 0 cpu soc ran)
  call_fn-Fits ld_a_deaddr src opcode cycles cycles_skipped op_lt e c s =
      fit _ _ _ c (ld_a_deaddr-Ran bus start 0 cpu soc ran opcode e)
  call_fn-Fits rra src opcode cycles cycles_skipped op_lt e c s =
      fit _ _ _ c (lift (rra-IsReady opcode cpu ran.0 e))
  call_fn-Fits jr_cc src opcode cycles cycles_skipped op_lt e c s =
      fit_branch _ _ _ _ c s (jr_cc-Ends bus start 0 cpu soc ran opcode e)
  call_fn-Fits ld_hliaddr_a src opcode cycles cycles_skipped op_lt e c s =
      fit _ _ _ c (ld_hliaddr_a-Ran bus start 0 cpu soc ran opcode e)
  call_fn-Fits daa src opcode cycles cycles_skipped op_lt e c s =
      fit _ _ _ c (Returns-some (IsReady-af cpu _ (daa-lt cpu.reg_af ran.0.1) ran.0, ran.1, ran.2))
  call_fn-Fits ld_a_hliaddr src opcode cycles cycles_skipped op_lt e c s =
      fit _ _ _ c (ld_a_hliaddr-Ran bus start 0 cpu soc ran opcode e)
  call_fn-Fits cpl src opcode cycles cycles_skipped op_lt e c s =
      fit _ _ _ c (Returns-some (cpl-IsReady cpu ran.0, ran.1, ran.2))
  call_fn-Fits ld_hldaddr_a src opcode cycles cycles_skipped op_lt e c s =
      fit _ _ _ c (ld_hldaddr_a-Ran bus start 0 cpu soc ran opcode e)
  call_fn-Fits inc_r16addr src opcode cycles cycles_skipped op_lt e c s =
      fit _ _ _ c (inc_r16addr-Ran bus start 0 cpu soc ran opcode e)
  call_fn-Fits dec_r16addr src opcode cycles cycles_skipped op_lt e c s =
      fit _ _ _ c (dec_r16addr-Ran bus start 0 cpu soc ran opcode e)
  call_fn-Fits hladdr_imm8 src opcode cycles cycles_skipped op_lt e c s =
      fit _ _ _ c (hladdr_imm8-Ran bus start 0 cpu soc ran opcode e)
  call_fn-Fits scf src opcode cycles cycles_skipped op_lt e c s =
      fit _ _ _ c (Returns-some (scf-IsReady cpu ran.0, ran.1, ran.2))
  call_fn-Fits ld_a_hldaddr src opcode cycles cycles_skipped op_lt e c s =
      fit _ _ _ c (ld_a_hldaddr-Ran bus start 0 cpu soc ran opcode e)
  call_fn-Fits ccf src opcode cycles cycles_skipped op_lt e c s =
      fit _ _ _ c (Returns-some (ccf-IsReady cpu ran.0, ran.1, ran.2))
  call_fn-Fits ld_b_b src opcode cycles cycles_skipped op_lt e c s = fit _ _ _ c (Returns-some ran)
  call_fn-Fits ld_r8_r8 src opcode cycles cycles_skipped op_lt e c s =
      fit _ _ _ c (lift (ld_r8_r8-IsReady opcode cpu (ground arith) (ground arith) ran.0))
  call_fn-Fits ld_r8_hladdr src opcode cycles cycles_skipped op_lt e c s =
      fit _ _ _ c (
        ld_r8_hladdr-Ran bus start 0 cpu soc ran opcode (ground arith) (ground arith)
          (ground arith))
  call_fn-Fits hladdr_r8 src opcode cycles cycles_skipped op_lt e c s =
      fit _ _ _ c
        (hladdr_r8-Ran bus start 0 cpu soc ran opcode (ground arith) (ground arith) (ground arith))
  call_fn-Fits halt src opcode cycles cycles_skipped op_lt e c s =
      fit _ _ _ c (halt-Ran bus start 0 cpu soc ran)
  call_fn-Fits add_r8_imm8_hladdr src opcode cycles cycles_skipped op_lt e c s =
      fit _ _ _ c (add_r8_imm8_hladdr-Ran bus start 0 cpu soc ran opcode src e)
  call_fn-Fits adc src opcode cycles cycles_skipped op_lt e c s =
      fit _ _ _ c (adc-Ran bus start 0 cpu soc ran opcode src e)
  call_fn-Fits sub src opcode cycles cycles_skipped op_lt e c s =
      fit _ _ _ c (sub-Ran bus start 0 cpu soc ran opcode src e)
  call_fn-Fits sbc src opcode cycles cycles_skipped op_lt e c s =
      fit _ _ _ c (sbc-Ran bus start 0 cpu soc ran opcode src e)
  call_fn-Fits and src opcode cycles cycles_skipped op_lt e c s =
      fit _ _ _ c (and-Ran bus start 0 cpu soc ran opcode src e)
  call_fn-Fits xor src opcode cycles cycles_skipped op_lt e c s =
      fit _ _ _ c (xor-Ran bus start 0 cpu soc ran opcode src e)
  call_fn-Fits or src opcode cycles cycles_skipped op_lt e c s =
      fit _ _ _ c (or-Ran bus start 0 cpu soc ran opcode src e)
  call_fn-Fits cp src opcode cycles cycles_skipped op_lt e c s =
      fit _ _ _ c (cp-Ran bus start 0 cpu soc ran opcode src e)
  call_fn-Fits ret_cc src opcode cycles cycles_skipped op_lt e c s =
      fit_branch _ _ _ _ c s (ret_cc-Ends bus start 0 cpu soc ran opcode e)
  call_fn-Fits pop src opcode cycles cycles_skipped op_lt e c s =
      fit _ _ _ c (pop_opcode-Ran bus start 0 cpu soc ran opcode)
  call_fn-Fits jp_cc src opcode cycles cycles_skipped op_lt e c s =
      fit_branch _ _ _ _ c s (jp_cc-Ends bus start 0 cpu soc ran opcode)
  call_fn-Fits jp_a16 src opcode cycles cycles_skipped op_lt e c s =
      fit _ _ _ c (jp_a16-Ran bus start 0 cpu soc ran)
  call_fn-Fits call_cc src opcode cycles cycles_skipped op_lt e c s =
      fit_branch _ _ _ _ c s (call_cc-Ends bus start 0 cpu soc ran opcode e)
  call_fn-Fits push src opcode cycles cycles_skipped op_lt e c s =
      fit _ _ _ c (push_opcode-Ran bus start 0 cpu soc ran opcode)
  call_fn-Fits rst src opcode cycles cycles_skipped op_lt e c s =
      fit _ _ _ c (rst-Ran bus start 0 cpu soc ran opcode (leb→le 0xc7 opcode e) op_lt)
  call_fn-Fits ret src opcode cycles cycles_skipped op_lt e c s =
      fit _ _ _ c (ret-Ran bus start 0 cpu soc ran)
  call_fn-Fits prefix src opcode cycles cycles_skipped op_lt e c s = absurd (ground arith)
  call_fn-Fits call_a16 src opcode cycles cycles_skipped op_lt e c s =
      fit _ _ _ c (call_a16-Ran bus start 0 cpu soc ran)
  call_fn-Fits illegal_d3 src opcode cycles cycles_skipped op_lt e c s = absurd (ground arith)
  call_fn-Fits reti src opcode cycles cycles_skipped op_lt e c s =
      fit _ _ _ c (reti-Ran bus start 0 cpu soc ran)
  call_fn-Fits illegal_db src opcode cycles cycles_skipped op_lt e c s = absurd (ground arith)
  call_fn-Fits illegal_dd src opcode cycles cycles_skipped op_lt e c s = absurd (ground arith)
  call_fn-Fits ldh_r8addr_a src opcode cycles cycles_skipped op_lt e c s =
      fit _ _ _ c (ldh_r8addr_a-Ran bus start 0 cpu soc ran opcode e)
  call_fn-Fits r8addr_a src opcode cycles cycles_skipped op_lt e c s =
      fit _ _ _ c (r8addr_a-Ran bus start 0 cpu soc ran opcode e)
  call_fn-Fits illegal_e3 src opcode cycles cycles_skipped op_lt e c s = absurd (ground arith)
  call_fn-Fits illegal_e4 src opcode cycles cycles_skipped op_lt e c s = absurd (ground arith)
  call_fn-Fits add_sp_e8 src opcode cycles cycles_skipped op_lt e c s =
      fit _ _ _ c (add_sp_e8-Ran bus start 0 cpu soc ran opcode e)
  call_fn-Fits jp_hl src opcode cycles cycles_skipped op_lt e c s =
      fit _ _ _ c (Returns-some (jp_hl-IsReady cpu ran.0, ran.1, ran.2))
  call_fn-Fits imm16addr_a src opcode cycles cycles_skipped op_lt e c s =
      fit _ _ _ c (imm16addr_a-Ran bus start 0 cpu soc ran opcode e)
  call_fn-Fits illegal_eb src opcode cycles cycles_skipped op_lt e c s = absurd (ground arith)
  call_fn-Fits illegal_ec src opcode cycles cycles_skipped op_lt e c s = absurd (ground arith)
  call_fn-Fits illegal_ed src opcode cycles cycles_skipped op_lt e c s = absurd (ground arith)
  call_fn-Fits ldh_a_r8addr src opcode cycles cycles_skipped op_lt e c s =
      fit _ _ _ c (ldh_a_r8addr-Ran bus start 0 cpu soc ran opcode e)
  call_fn-Fits r8_c src opcode cycles cycles_skipped op_lt e c s =
      fit _ _ _ c (r8_c-Ran bus start 0 cpu soc ran opcode e)
  call_fn-Fits di src opcode cycles cycles_skipped op_lt e c s =
      fit _ _ _ c (Returns-some (di-IsReady cpu ran.0, ran.1, ran.2))
  call_fn-Fits illegal_f4 src opcode cycles cycles_skipped op_lt e c s = absurd (ground arith)
  call_fn-Fits ld_hl_spi src opcode cycles cycles_skipped op_lt e c s =
      fit _ _ _ c (ld_hl_spi-Ran bus start 0 cpu soc ran opcode e)
  call_fn-Fits ld_sp_hl src opcode cycles cycles_skipped op_lt e c s =
      fit _ _ _ c (ld_sp_hl-Ran bus start 0 cpu soc ran opcode e)
  call_fn-Fits ld_a_imm16addr src opcode cycles cycles_skipped op_lt e c s =
      fit _ _ _ c (ld_a_imm16addr-Ran bus start 0 cpu soc ran opcode e)
  call_fn-Fits ei src opcode cycles cycles_skipped op_lt e c s =
      fit _ _ _ c (Returns-some (ei-IsReady cpu ran.0, ran.1, ran.2))
  call_fn-Fits illegal_fc src opcode cycles cycles_skipped op_lt e c s = absurd (ground arith)
  call_fn-Fits illegal_fd src opcode cycles cycles_skipped op_lt e c s = absurd (ground arith)
  call_fn-Fits rlc src opcode cycles cycles_skipped op_lt e c s =
      fit _ _ _ c (rlc-Ran bus start 0 cpu soc ran opcode)
  call_fn-Fits rrc src opcode cycles cycles_skipped op_lt e c s =
      fit _ _ _ c (rrc-Ran bus start 0 cpu soc ran opcode)
  call_fn-Fits rl src opcode cycles cycles_skipped op_lt e c s =
      fit _ _ _ c (rl-Ran bus start 0 cpu soc ran opcode)
  call_fn-Fits rr src opcode cycles cycles_skipped op_lt e c s =
      fit _ _ _ c (rr-Ran bus start 0 cpu soc ran opcode)
  call_fn-Fits sla src opcode cycles cycles_skipped op_lt e c s =
      fit _ _ _ c (sla-Ran bus start 0 cpu soc ran opcode)
  call_fn-Fits sra src opcode cycles cycles_skipped op_lt e c s =
      fit _ _ _ c (sra-Ran bus start 0 cpu soc ran opcode)
  call_fn-Fits swap src opcode cycles cycles_skipped op_lt e c s =
      fit _ _ _ c (swap-Ran bus start 0 cpu soc ran opcode)
  call_fn-Fits srl src opcode cycles cycles_skipped op_lt e c s =
      fit _ _ _ c (srl-Ran bus start 0 cpu soc ran opcode)
  call_fn-Fits bit src opcode cycles cycles_skipped op_lt e c s =
      fit _ _ _ c (bit-Ran bus start 0 cpu soc ran opcode)
  call_fn-Fits res src opcode cycles cycles_skipped op_lt e c s =
      fit _ _ _ c (res-Ran bus start 0 cpu soc ran opcode)
  call_fn-Fits set src opcode cycles cycles_skipped op_lt e c s =
      fit _ _ _ c (set-Ran bus start 0 cpu soc ran opcode)

  pub exec-Fits :
      (inst : Instruction) (opcode : ℕ)
      → opcode < 256
      → expects inst.exec inst.src opcode ≡ true
      → inst.cycles ≡ taken_cycles inst.exec inst.src opcode + k
      → is_skipped_cost inst.exec k inst.cycles_skipped ≡ true
      → Returns
          (λ (p : Cpu × S). Fits bus start k inst.cycles inst.cycles_skipped p.0 p.1)
          (exec bus inst opcode cpu soc)
  unfolding exec
  exec-Fits inst opcode = call_fn-Fits inst.exec inst.src opcode inst.cycles inst.cycles_skipped
