-- ===== src/Cpu/Step/Nop.antt =====
-- A `NOP` from its fetched opcode to the fetch of the next.
use zenith_gb.Base.{ℕ, ◌+◌, ◌-◌, ◌≡◌, refl, false, some, arith}
use zenith_gb.Cpu.Bus.{Bus}
use zenith_gb.Cpu.Registers.{Cpu, inc_reg16}
use zenith_gb.Cpu.Access.{clock_fetch, clock_consume_byte_from_pc}
use zenith_gb.Cpu.Dispatch.{opcode_nop, exec}
use zenith_gb.Cpu.Table.{get_instruction}
use zenith_gb.Cpu.Step.{step, check_interrupts}

one_apart : (a b : ℕ) → b ≡ a + 1 → b - a ≡ 1
one_apart a b e = omega arith

-- The state of a processor that has fetched a `NOP` and is not about to do anything else.
abbrev pub AtNop : Cpu → Type 0
AtNop cpu =
    (cpu.opcode ≡ 0) × (cpu.halted ≡ false) × (cpu.ime_next ≡ false) × (cpu.branch_skipped ≡ false)

pub step_nop :
    {S : Type 0} (bus : Bus S) (cpu : Cpu) (soc t : S) (byte : ℕ)
    → AtNop cpu
    → bus.active_interrupts soc ≡ 0
    → bus.clock_read cpu.reg_pc soc ≡ some (byte, t)
    → bus.cycles t ≡ bus.cycles soc + 1
    → step bus cpu soc
      ≡ some (
        1,
        record cpu { opcode = byte; reg_pc = inc_reg16 cpu.reg_pc; branch_skipped = false },
        t,
      )
unfolding step check_interrupts exec get_instruction opcode_nop clock_fetch
    clock_consume_byte_from_pc
step_nop bus cpu soc t byte (nop, awake, later, taken) quiet read time =
    let one : bus.cycles t - bus.cycles soc ≡ 1 = one_apart (bus.cycles soc) (bus.cycles t) time in
    simp (quiet, later, awake, nop, read, taken, one) refl
