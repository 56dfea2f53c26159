-- ===== src/Cpu/Step/Cycles.antt =====
-- One step of the processor takes the cycles of its instruction, and what its `debug_assert!` says
-- of them holds.
use zenith_gb.Base.{
  ℕ, ◌+◌, ◌-◌, ◌*◌, ◌≤◌, ◌<◌, ◌≡◌, refl, Bool, true, false, some, ◌==◌, of_bool, arith, if_cases,
  ◌>>=◌, Returns, >>=-Returns, Returns-some, Returns-of, debug_assert, debug_assert-Returns,
  if◌then◌else◌,
}
use zenith_gb.Cpu.Bus.{Bus}
use zenith_gb.Cpu.Registers.{Cpu}
use zenith_gb.Cpu.Registers.Bounds.{IsReady}
use zenith_gb.Cpu.Access.Timing.{Ran, clock-Ran, fetch-Ran, fetch_after}
use zenith_gb.Cpu.Instruction.{Instruction}
use zenith_gb.Cpu.Dispatch.{exec}
use zenith_gb.Cpu.Dispatch.Cycles.{exec-Fits}
use zenith_gb.Cpu.Access.{clock_fetch}
use zenith_gb.Cpu.Step.{idle, decode, run_instruction, step, check_interrupts, interrupt_cycles}
use zenith_gb.Cpu.Step.Rows.{is_illegal, IsRow, get_instruction_lem, get_instruction_cb_lem}
use zenith_gb.Cpu.Step.Interrupts.{check_interrupts-Ran}

of_bool-le : (b : Bool) → of_bool b ≤ 1
of_bool-le true = omega arith
of_bool-le false = omega arith

==_lem : (a b : ℕ) → a ≡ b → (a == b) ≡ true
==_lem a b e = ground arith

-- What a step leaves: the processor in order, the bus in order, and the clock ahead by the cycles
-- that the step returns, of which there are one to eleven.
abbrev pub Stepped : {S : Type 0} → Bus S → S → ℕ × Cpu × S → Type 0
Stepped bus start p =
    IsReady p.1
    × bus.IsValid p.2
    × (bus.cycles p.2 ≡ bus.cycles start + p.0)
    × (1 ≤ p.0)
    × (p.0 ≤ 11)

module _ {S : Type 0} (bus : Bus S) (start : S) (b : Bool) (cpu : Cpu) (soc : S)
    (ran : Ran bus start (of_bool b * 5) cpu soc) where
  -- From a decoded instruction on; `k` is 1, and 2 behind the prefix.
  run_decoded :
      (k : ℕ) (inst : Instruction) (c : Cpu) (s : S)
      → IsRow k c.opcode inst
      → IsReady c
      → bus.IsValid s
      → bus.cycles s + 1 ≡ bus.cycles soc + k
      → 1 ≤ k
      → Returns (Stepped bus start) (
          exec bus inst c.opcode c s >>= (λ p. clock_fetch bus p.0 p.1 >>= (λ q.
            debug_assert (
              (if q.0.branch_skipped then inst.cycles_skipped else inst.cycles)
                + of_bool b * interrupt_cycles
              == bus.cycles q.1 - bus.cycles start)
            >>= (λ _.
                some (
                  bus.cycles q.1 - bus.cycles start,
                  record q.0 { branch_skipped = false },
                  q.1,
                )))))
  run_decoded k inst c s row ready valid passed pos =
      >>=-Returns
        (exec-Fits bus s c s (ready, valid, omega arith) k inst c.opcode ready.0 row.0 row.1 row.2)
        (λ p (r, v, e, grown). >>=-Returns (fetch_after bus p.0 p.1 r v) (λ q (r', same, v', e').
          let spent = if p.0.branch_skipped then inst.cycles_skipped else inst.cycles in
          let spent_le : spent ≤ 6 =
            if_cases (λ x. x ≤ 6) p.0.branch_skipped (λ t. row.4) (λ t. row.3) in
          let total : bus.cycles q.1 ≡ bus.cycles start + (spent + of_bool b * 5) =
            omega (arith, ran.2) in
          let later : bus.cycles s < bus.cycles q.1 = omega arith in
          let n_le : bus.cycles q.1 - bus.cycles start ≤ 11 = omega (arith, of_bool-le b) in
          debug_assert-Returns (simp same (==_lem _ _ (omega arith)))
            (Returns-some (r', v', omega arith, omega arith, n_le))))

  -- What decoding gives: a row of the table that is sound for the opcode.
  abbrev Decoded : Instruction × Cpu × S → Type 0
  Decoded p =
      (k : ℕ) × IsRow k p.1.opcode p.0
      × IsReady p.1
      × bus.IsValid p.2
      × (bus.cycles p.2 + 1 ≡ bus.cycles soc + k)
      × (1 ≤ k)

  decode-Decoded :
      is_illegal cpu.opcode ≡ false
      → (cpu.opcode == 0x08) ≡ false
      → Returns Decoded (decode bus cpu soc)
  decode-Decoded legal not_store =
      if_cases (Returns Decoded) (cpu.opcode == 0xcb)
        (λ e. >>=-Returns (fetch-Ran bus soc 0 cpu soc (ran.0, ran.1, omega arith)) (λ p r.
          >>=-Returns (get_instruction_cb_lem p.0.opcode r.0.0)
            (λ inst row. Returns-some (2, row, r.0, r.1, omega (arith, r.2), omega arith))))
        (λ e.
          >>=-Returns (get_instruction_lem cpu.opcode ran.0.0 legal not_store e)
            (λ inst row. Returns-some (1, row, ran.0, ran.1, refl, omega arith)))

  run_instruction-Stepped :
      is_illegal cpu.opcode ≡ false
      → (cpu.opcode == 0x08) ≡ false
      → Returns (Stepped bus start) (run_instruction bus start b cpu soc)
  run_instruction-Stepped legal not_store =
      >>=-Returns (decode-Decoded legal not_store) (λ p (k, row, ready, valid, passed, pos).
        run_decoded k p.0 p.1 p.2 row ready valid passed pos)

-- From registers within their widths, a valid bus and PC not 0: a step whose look for interrupts
-- leaves the processor awake, with an opcode that exists and is not `LD [a16] SP`, returns. So the
-- assertion holds that it takes the cycles of the instruction table, and five more for an
-- interrupt. The registers stay within their widths, the bus stays valid, and its clock advances by
-- the cycles that the step returns, from one to eleven.
pub step_cycles :
    {S : Type 0} (bus : Bus S) (cpu : Cpu) (soc : S)
    → IsReady cpu
    → bus.IsValid soc
    → 0 < cpu.reg_pc
    → (served : Bool) (cpu1 : Cpu) (soc1 : S)
    → check_interrupts bus cpu soc ≡ some (served, cpu1, soc1)
    → cpu1.halted ≡ false
    → is_illegal cpu1.opcode ≡ false
    → (cpu1.opcode == 0x08) ≡ false
    → Returns (Stepped bus soc) (step bus cpu soc)
unfolding step
step_cycles {S} bus cpu soc ready valid pos served cpu1 soc1 e awake legal not_store =
    let ran =
      Returns-of (λ (p : Bool × Cpu × S). Ran bus soc (of_bool p.0 * 5) p.1 p.2) e
        (check_interrupts-Ran bus cpu soc ready valid pos) in
    simp e (
      if_cases
        (λ c.
          Returns (Stepped bus soc)
            (if c.halted then idle bus soc c soc1 else run_instruction bus soc served c soc1))
        cpu1.ime_next
        (λ t.
          if_cases (Returns (Stepped bus soc)) cpu1.halted (λ asleep. absurd (ground arith))
            (λ f.
              run_instruction-Stepped bus soc served (record cpu1 { ime = true; ime_next = false })
                soc1 ran legal not_store))
        (λ t.
          if_cases (Returns (Stepped bus soc)) cpu1.halted (λ asleep. absurd (ground arith))
            (λ f. run_instruction-Stepped bus soc served cpu1 soc1 ran legal not_store)))

-- One idle cycle.
abbrev pub Idled : {S : Type 0} → Bus S → S → ℕ × Cpu × S → Type 0
Idled bus soc p = Stepped bus soc p × (p.0 ≡ 1) × (p.1.halted ≡ true)

idle-Idled :
    {S : Type 0} (bus : Bus S) (cpu : Cpu) (soc : S)
    → IsReady cpu
    → bus.IsValid soc
    → cpu.halted ≡ true
    → Returns (Idled bus soc) (idle bus soc cpu soc)
idle-Idled bus cpu soc ready valid halted =
    >>=-Returns (clock-Ran bus soc 0 cpu soc (ready, valid, omega arith)) (λ t r.
      debug_assert-Returns (==_lem _ 1 (omega (arith, r.2))) (
        Returns-some (
          (r.0, r.1, omega (arith, r.2), omega (arith, r.2), omega (arith, r.2)),
          omega (arith, r.2),
          halted,
        )))

-- With registers within their widths and a valid bus, a step of a halted processor with no
-- interrupt pending returns after one cycle and leaves it halted.
pub step_halted :
    {S : Type 0} (bus : Bus S) (cpu : Cpu) (soc : S)
    → IsReady cpu
    → bus.IsValid soc
    → bus.active_interrupts soc ≡ 0
    → cpu.halted ≡ true
    → Returns (Idled bus soc) (step bus cpu soc)
unfolding step check_interrupts
step_halted {S} bus cpu soc ready valid quiet halted = simp quiet (
    if_cases
      (λ c.
        Returns (Idled bus soc)
          (if c.halted then idle bus soc c soc else run_instruction bus soc false c soc))
      cpu.ime_next
      (λ t.
        if_cases (Returns (Idled bus soc)) cpu.halted
          (λ asleep.
            idle-Idled bus (record cpu { ime = true; ime_next = false }) soc ready valid halted)
          (λ f. absurd (ground arith)))
      (λ t.
        if_cases (Returns (Idled bus soc)) cpu.halted
          (λ asleep. idle-Idled bus cpu soc ready valid halted) (λ f. absurd (ground arith))))
