-- ===== src/Soc/Steps.antt =====
-- The processor in the machine: what `step_cycles` says of it on the SOC.
use zenith_gb.Base.{ℕ, ◌+◌, ◌≤◌, ◌<◌, ◌≡◌, Bool, false, some, ◌==◌, Returns, Returns-map}
use zenith_gb.Cpu.Registers.{Cpu}
use zenith_gb.Cpu.Registers.Bounds.{IsReady}
use zenith_gb.Cpu.Machine.{Guarded, running, panicked, guard}
use zenith_gb.Cpu.Step.{step, check_interrupts}
use zenith_gb.Cpu.Step.Rows.{is_illegal}
use zenith_gb.Cpu.Step.Cycles.{step_cycles}
use zenith_gb.Soc.State.{Soc}
use zenith_gb.Soc.Access.{soc_machine}

-- `n` cycles have passed since `start`, unless a call of the SOC has panicked.
abbrev pub Passed : Soc → ℕ → Guarded Soc → Type 0
Passed start n (running s) = s.cycles ≡ start.cycles + n
Passed start n (panicked time) = Unit

Passed-running :
    (start : Soc) (exit : Bool) (n : ℕ) (s : Guarded Soc)
    → (guard (soc_machine exit)).cycles s ≡ start.cycles + n
    → Passed start n s
Passed-running start exit n (running s) e = e
Passed-running start exit n (panicked time) e = tt

-- From registers within their widths and PC not 0, on any state of the SOC: a step whose look for
-- interrupts leaves the processor awake, with an opcode that exists and is not `LD [a16] SP`, does
-- not panic but in a call of the SOC. So the assertion holds that it takes the cycles of the
-- instruction table, and five more for an interrupt. The registers stay within their widths, and
-- unless a call of the SOC has panicked, its `cycles` advance by what the step returns, from one to
-- eleven.
pub soc_step_cycles :
    (exit : Bool) (cpu : Cpu) (soc : Soc)
    → IsReady cpu
    → 0 < cpu.reg_pc
    → (served : Bool) (cpu1 : Cpu) (soc1 : Guarded Soc)
    → check_interrupts (guard (soc_machine exit)) cpu (running soc) ≡ some (served, cpu1, soc1)
    → cpu1.halted ≡ false
    → is_illegal cpu1.opcode ≡ false
    → (cpu1.opcode == 0x08) ≡ false
    → Returns
        (λ (p : ℕ × Cpu × Guarded Soc). IsReady p.1 × Passed soc p.0 p.2 × (1 ≤ p.0) × (p.0 ≤ 11))
        (step (guard (soc_machine exit)) cpu (running soc))
soc_step_cycles exit cpu soc ready pos served cpu1 soc1 e awake legal not_store =
    Returns-map
      (λ p (ready', valid, passed, ge, le).
        (ready', Passed-running soc exit p.0 p.2 passed, ge, le))
      (step_cycles (guard (soc_machine exit)) cpu (running soc) ready tt pos served cpu1 soc1 e
        awake legal not_store)
