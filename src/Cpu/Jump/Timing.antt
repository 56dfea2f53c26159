-- ===== src/Cpu/Jump/Timing.antt =====
-- Every jump takes its cycles, by whether it is taken, and keeps the processor and the bus in order.
use zenith_gb.Base.{
  ℕ, ◌+◌, ◌-◌, ◌%◌, ◌≤◌, ◌<◌, ◌≡◌, refl, ◌∙◌, true, false, some, bit_and, ◌>>>◌, ◌==◌, ◌||◌, arith,
  if_cases, inl, inr, checked_sub, Returns, >>=-Returns, Returns-some, debug_assert-Returns,
  if◌then◌else◌,
}
use zenith_gb.Base.Bits.{bit_and-le}
use zenith_gb.Util.Bytes.{get_high-lt, get_low-lt}
use zenith_gb.Cpu.Bus.{Bus}
use zenith_gb.Cpu.Registers.{Cpu}
use zenith_gb.Cpu.Registers.Bounds.{
  IsReady, IsReady-pc, four_cases, read_r16stk_msb_lem, read_r16stk_lsb_lem, write_r16stk_lem,
}
use zenith_gb.Cpu.Access.Timing.{Ran, clock-Ran, consume-Ran, push-Ran, pop-Ran}
use zenith_gb.Cpu.Load.{sign_extend}
use zenith_gb.Cpu.Load.Bounds.{value-lt, pair_bits-lt}
use zenith_gb.Cpu.Jump.{
  branch_taken, jump_by, skip, return_from, opcode_jp_hl, opcode_di, opcode_ei, opcode_stop,
  opcode_halt, opcode_jr_e8, opcode_jr_cc, opcode_ret, opcode_push, opcode_pop, call, opcode_rst,
  opcode_reti,
}

-- From the bus `start` on, `taken` cycles have passed, or `skipped` if a branch was skipped.
abbrev pub Ends : {S : Type 0} → Bus S → S → (taken skipped : ℕ) → Cpu → S → Type 0
Ends bus start taken skipped cpu soc =
    IsReady (record cpu { branch_skipped = false })
    × bus.IsValid soc
    × (bus.cycles soc ≡ bus.cycles start + (if cpu.branch_skipped then skipped else taken))

module _ {S : Type 0} (bus : Bus S) (start : S) where
  pub Ran-Ends :
      (n m : ℕ) (cpu : Cpu) (soc : S) → Ran bus start n cpu soc → Ends bus start n m cpu soc
  Ran-Ends n m cpu soc ran =
      let r = ran.0 in ((r.0, r.1, r.2, r.3, r.4, r.5, r.6, refl), ran.1, simp (r.7) ran.2)

  pub skip-Ends :
      (n m : ℕ) (cpu : Cpu) (soc : S) → Ran bus start m cpu soc → Ends bus start n m (skip cpu) soc
  skip-Ends n m cpu soc ran =
      let r = ran.0 in ((r.0, r.1, r.2, r.3, r.4, r.5, r.6, refl), ran.1, ran.2)

pub branch_taken_lem : (opcode : ℕ) (cpu : Cpu) → Returns (λ b. Unit {0}) (branch_taken opcode cpu)
unfolding branch_taken
branch_taken_lem opcode cpu =
    let flag_lt : bit_and (opcode >>> 3) 0x3 < 4 =
      omega (arith, (bit_and-le (opcode >>> 3) 0x3).1) in
    elim (four_cases (bit_and (opcode >>> 3) 0x3) flag_lt) [
      | inl e ↦ simp e (_, refl, tt)
      | inr (inl e) ↦ simp e (_, refl, tt)
      | inr (inr (inl e)) ↦ simp e (_, refl, tt)
      | inr (inr (inr e)) ↦ simp e (_, refl, tt)
    ]

pub jp_hl-IsReady : (cpu : Cpu) → IsReady cpu → IsReady (opcode_jp_hl cpu)
unfolding opcode_jp_hl
jp_hl-IsReady cpu ready = IsReady-pc cpu cpu.reg_hl ready.4 ready

pub di-IsReady : (cpu : Cpu) → IsReady cpu → IsReady (opcode_di cpu)
unfolding opcode_di
di-IsReady cpu ready = ready

pub ei-IsReady : (cpu : Cpu) → IsReady cpu → IsReady (opcode_ei cpu)
unfolding opcode_ei
ei-IsReady cpu ready = ready

rst_address :
    (opcode : ℕ) → 0xc7 ≤ opcode → opcode < 256 → Returns (λ a. a < 256) (checked_sub opcode 0xc7)
rst_address opcode le lt = (opcode - 0xc7, ground arith, omega arith)

jump_by-IsReady : (e : ℕ) (cpu : Cpu) → IsReady cpu → IsReady (jump_by e cpu)
jump_by-IsReady e cpu ready =
    IsReady-pc cpu ((cpu.reg_pc + sign_extend e) % 65536) (omega arith) ready

module _ {S : Type 0} (bus : Bus S) (start : S) (n : ℕ) (cpu : Cpu) (soc : S)
    (ran : Ran bus start n cpu soc) where
  pub stop-Ran :
      (opcode : ℕ)
      → (opcode == 0x10) ≡ true
      → Returns (λ (p : Cpu × S). Ran bus start n p.0 p.1) (opcode_stop bus opcode cpu soc)
  unfolding opcode_stop
  stop-Ran opcode e =
      let (valid, c) = bus.cgb_speed_switch_lem soc ran.1 in
      debug_assert-Returns e (Returns-some (ran.0, valid, c ∙ ran.2))

  pub halt-Ran : Returns (λ (p : Cpu × S). Ran bus start n p.0 p.1) (some (opcode_halt bus cpu soc))
  unfolding opcode_halt
  halt-Ran =
      let (valid, c) = bus.set_cpu_halted_lem true soc ran.1 in
      if_cases (λ p. Returns (λ (p : Cpu × S). Ran bus start n p.0 p.1) (some p))
        (cpu.ime || bus.active_interrupts soc == 0) (λ e. Returns-some (ran.0, valid, c ∙ ran.2))
        (λ e. Returns-some ran)

  pub jr_e8-Ran :
      Returns (λ (p : Cpu × S). Ran bus start (n + 1 + 1) p.0 p.1) (opcode_jr_e8 bus cpu soc)
  unfolding opcode_jr_e8
  jr_e8-Ran = >>=-Returns (consume-Ran bus start n cpu soc ran) (λ p q.
      let ready = jump_by-IsReady p.0 p.1 q.1.0 in
      >>=-Returns (clock-Ran bus start (n + 1) (jump_by p.0 p.1) p.2 (ready, q.1.1, q.1.2))
        (λ t r. Returns-some r))

  pub jr_cc-Ends :
      (opcode : ℕ)
      → (opcode == 0x20 || opcode == 0x28 || opcode == 0x30 || opcode == 0x38) ≡ true
      → Returns
          (λ (p : Cpu × S). Ends bus start (n + 1 + 1) (n + 1) p.0 p.1)
          (opcode_jr_cc bus opcode cpu soc)
  unfolding opcode_jr_cc
  jr_cc-Ends opcode e = debug_assert-Returns e (
      >>=-Returns (branch_taken_lem opcode cpu) (λ taken u.
        >>=-Returns (consume-Ran bus start n cpu soc ran) (λ p q.
          let ready = jump_by-IsReady p.0 p.1 q.1.0 in
          if_cases (Returns (λ (p : Cpu × S). Ends bus start (n + 1 + 1) (n + 1) p.0 p.1)) taken
            (λ e. >>=-Returns (clock-Ran bus start (n + 1) p.1 p.2 q.1) (λ t r.
              Returns-some (Ran-Ends bus start _ (n + 1) (jump_by p.0 p.1) t (ready, r.1, r.2))))
            (λ e. Returns-some (skip-Ends bus start 0 (n + 1) p.1 p.2 q.1)))))

  pub return_from-Ran :
      Returns (λ (p : Cpu × S). Ran bus start (n + 1 + 1 + 1) p.0 p.1) (return_from bus cpu soc)
  return_from-Ran = >>=-Returns (pop-Ran bus start n cpu soc ran) (λ p q.
      >>=-Returns
        (clock-Ran bus start (n + 1 + 1) (record p.1 { reg_pc = p.0 }) p.2
          (IsReady-pc p.1 p.0 q.0 q.1.0, q.1.1, q.1.2))
        (λ t r. Returns-some r))

  pub ret-Ran :
      Returns (λ (p : Cpu × S). Ran bus start (n + 1 + 1 + 1) p.0 p.1) (opcode_ret bus cpu soc)
  unfolding opcode_ret
  ret-Ran = return_from-Ran

  pub reti-Ran :
      Returns (λ (p : Cpu × S). Ran bus start (n + 1 + 1 + 1) p.0 p.1) (opcode_reti bus cpu soc)
  unfolding opcode_reti
  reti-Ran = >>=-Returns (pop-Ran bus start n cpu soc ran) (λ p q.
      >>=-Returns
        (clock-Ran bus start (n + 1 + 1) (record p.1 { reg_pc = p.0; ime = true }) p.2
          (IsReady-pc p.1 p.0 q.0 q.1.0, q.1.1, q.1.2))
        (λ t r. Returns-some r))

  pub push_opcode-Ran :
      (opcode : ℕ)
      → Returns
          (λ (p : Cpu × S). Ran bus start (n + 1 + 1 + 1) p.0 p.1)
          (opcode_push bus opcode cpu soc)
  unfolding opcode_push
  push_opcode-Ran opcode = >>=-Returns (clock-Ran bus start n cpu soc ran) (λ t r.
      >>=-Returns (read_r16stk_msb_lem _ cpu (pair_bits-lt opcode)) (λ msb msb_lt.
        >>=-Returns (push-Ran bus start (n + 1) cpu t r msb msb_lt) (λ p q.
          >>=-Returns (read_r16stk_lsb_lem _ p.0 (pair_bits-lt opcode))
            (λ lsb lsb_lt. push-Ran bus start (n + 1 + 1) p.0 p.1 q lsb lsb_lt))))

  pub pop_opcode-Ran :
      (opcode : ℕ)
      → Returns (λ (p : Cpu × S). Ran bus start (n + 1 + 1) p.0 p.1) (opcode_pop bus opcode cpu soc)
  unfolding opcode_pop
  pop_opcode-Ran opcode = >>=-Returns (pop-Ran bus start n cpu soc ran) (λ p q.
      >>=-Returns (write_r16stk_lem _ p.0 p.1 (pair_bits-lt opcode) q.0 q.1.0)
        (λ c ready. Returns-some (ready, q.1.1, q.1.2)))

  pub call-Ran :
      (msb lsb : ℕ)
      → msb < 256
      → lsb < 256
      → Returns (λ (p : Cpu × S). Ran bus start (n + 1 + 1 + 1) p.0 p.1) (call bus msb lsb cpu soc)
  unfolding call
  call-Ran msb lsb hm hl = >>=-Returns (clock-Ran bus start n cpu soc ran) (λ t r.
      >>=-Returns (push-Ran bus start (n + 1) cpu t r _ (get_high-lt cpu.reg_pc)) (λ p q.
        >>=-Returns (push-Ran bus start (n + 1 + 1) p.0 p.1 q _ (get_low-lt p.0.reg_pc))
          (λ u v. Returns-some (IsReady-pc u.0 _ (value-lt msb lsb hm hl) v.0, v.1, v.2))))

  pub rst-Ran :
      (opcode : ℕ)
      → 0xc7 ≤ opcode
      → opcode < 256
      → Returns
          (λ (p : Cpu × S). Ran bus start (n + 1 + 1 + 1) p.0 p.1)
          (opcode_rst bus opcode cpu soc)
  unfolding opcode_rst
  rst-Ran opcode le lt = >>=-Returns (clock-Ran bus start n cpu soc ran) (λ t r.
      >>=-Returns (push-Ran bus start (n + 1) cpu t r _ (get_high-lt cpu.reg_pc)) (λ p q.
        >>=-Returns (push-Ran bus start (n + 1 + 1) p.0 p.1 q _ (get_low-lt p.0.reg_pc)) (λ u v.
          >>=-Returns (rst_address opcode le lt) (λ addr addr_lt.
            Returns-some
              (IsReady-pc u.0 _ (value-lt 0 addr (omega arith) addr_lt) v.0, v.1, v.2)))))
