-- ===== src/Cpu/Step.antt =====
-- The processor's loop of src/cpu/cpu.rs: interrupts, the fetch, and one instruction.
pub mod Rows
pub mod Interrupts
pub mod Cycles
pub mod Overflow
pub mod Nop
mod Tests
use zenith_gb.Base.{
  ℕ, ◌+◌, ◌-◌, ◌*◌, Bool, true, false, not, List, [], ◌∷◌, Option, none, some, bit_and, ◌==◌, ◌!=◌,
  of_bool, get_elem?, checked_sub, ◌>>=◌, debug_assert, if◌then◌else◌,
}
use zenith_gb.Util.{get_high, get_low}
use zenith_gb.Cpu.Bus.{Bus}
use zenith_gb.Cpu.Registers.{Cpu}
use zenith_gb.Cpu.Access.{clock_fetch, clock_push_u8}
use zenith_gb.Cpu.Instruction.{Instruction}
use zenith_gb.Cpu.Table.{get_instruction, get_instruction_cb}
use zenith_gb.Cpu.Dispatch.{exec}

abbrev pub interrupt_cycles : ℕ
interrupt_cycles = 5

-- VBlank, LCD, timer, serial port and joypad, by priority.
abbrev pub interrupt_bits : List ℕ
interrupt_bits = 1 ∷ 2 ∷ 4 ∷ 8 ∷ 16 ∷ []

abbrev pub interrupt_vecs : List ℕ
interrupt_vecs = 0x40 ∷ 0x48 ∷ 0x50 ∷ 0x58 ∷ 0x60 ∷ []

-- The first index, counted from `index`, whose bit is active.
abbrev pub find_active : (active : ℕ) → List ℕ → (index : ℕ) → Option ℕ
find_active active [] index = none
find_active active (bit ∷ bits) index =
    if bit_and active bit == 0 then find_active active bits (index + 1) else some index

module _ {S : Type 0} (bus : Bus S) where
  open bus use {cycles, clock, active_interrupts, clear_interrupt, set_cpu_halted}

  -- The end of `handle_interrupt`, from the interrupt that was found.
  abbrev pub enter_handler : Option ℕ → Cpu → S → Option (Cpu × S)
  enter_handler none cpu soc = some (record cpu { reg_pc = 0 }, soc)
  enter_handler (some interrupt_index) cpu soc = do
    vec ← get_elem? interrupt_vecs interrupt_index
    bit ← get_elem? interrupt_bits interrupt_index
    some (record cpu { reg_pc = vec }, clear_interrupt bit soc)

  -- `self.pc().get() - 1` on a `u16`.
  pub handle_interrupt : Cpu → S → Option (Cpu × S)
  handle_interrupt cpu soc = do
    soc ← clock soc
    soc ← clock soc
    pc_val ← checked_sub cpu.reg_pc 1
    (cpu, soc) ← clock_push_u8 bus (get_high pc_val) cpu soc
    let active_interrupt = find_active (active_interrupts soc) interrupt_bits 0
    (cpu, soc) ← clock_push_u8 bus (get_low pc_val) cpu soc
    (cpu, soc) ← enter_handler active_interrupt cpu soc
    clock_fetch bus (record cpu { ime = false }) soc

  -- The `any` of `check_interrupts`: the first active interrupt is handled.
  abbrev pub service : Option ℕ → Cpu → S → Option (Bool × Cpu × S)
  service none cpu soc = some (false, cpu, soc)
  service (some i) cpu soc = handle_interrupt cpu soc >>= (λ p. some (true, p.0, p.1))

  unfoldable pub check_interrupts : Cpu → S → Option (Bool × Cpu × S)
  check_interrupts cpu soc =
      let woken = record cpu { halted = false } in
      let soc1 = set_cpu_halted false soc in
      if active_interrupts soc == 0
      then some (false, cpu, soc)
      else if not cpu.ime
      then some (false, woken, soc1)
      else service (find_active (active_interrupts soc1) interrupt_bits 0) woken soc1

  -- `EI` takes effect.
  abbrev pub enable_interrupts : Cpu → Cpu
  enable_interrupts cpu = if cpu.ime_next then record cpu { ime = true; ime_next = false } else cpu

  -- A halted processor lets one cycle pass.
  abbrev pub idle : S → Cpu → S → Option (ℕ × Cpu × S)
  idle start cpu soc = do
    soc ← clock soc
    _ ← debug_assert (cycles soc - cycles start == 1)
    some (cycles soc - cycles start, cpu, soc)

  -- The instruction of an opcode, behind the prefix that of the byte that follows.
  abbrev pub decode : Cpu → S → Option (Instruction × Cpu × S)
  decode cpu soc =
      if cpu.opcode == 0xcb
      then (clock_fetch bus cpu soc
          >>= (λ p. get_instruction_cb p.0.opcode >>= (λ inst. some (inst, p.0, p.1))))
      else (get_instruction cpu.opcode >>= (λ inst. some (inst, cpu, soc)))

  abbrev pub run_instruction : S → Bool → Cpu → S → Option (ℕ × Cpu × S)
  run_instruction start is_interrupt_cycle cpu soc = do
    (inst, cpu, soc) ← decode cpu soc
    (cpu, soc) ← exec bus inst cpu.opcode cpu soc
    (cpu, soc) ← clock_fetch bus cpu soc
    _ ← debug_assert (
        (if cpu.branch_skipped then inst.cycles_skipped else inst.cycles)
          + of_bool is_interrupt_cycle * interrupt_cycles
        == cycles soc - cycles start)
    some (cycles soc - cycles start, record cpu { branch_skipped = false }, soc)

  pub step : Cpu → S → Option (ℕ × Cpu × S)
  step cpu soc = do
    (is_interrupt_cycle, cpu, soc1) ← check_interrupts cpu soc
    let cpu = enable_interrupts cpu
    if cpu.halted then idle soc cpu soc1 else run_instruction soc is_interrupt_cycle cpu soc1
