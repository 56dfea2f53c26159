-- ===== src/Cpu/Step/Tests.antt =====
-- The processor on a bus that is a flat memory of bytes with a clock.
use zenith_gb.Base.{
  ℕ, ◌+◌, ◌-◌, ◌%◌, ◌/◌, ◌^◌, ◌<◌, ◌≡◌, refl, Bool, true, false, List, [], ◌∷◌, Option, none, some,
  bit_and, ◌==◌, arith, if◌then◌else◌,
}
use zenith_gb.Util.{value, get_high, get_low}
use zenith_gb.Cpu.Bus.{Bus}
use zenith_gb.Cpu.Flags.{af_of}
use zenith_gb.Cpu.Registers.{Cpu, dec_reg16, inc_reg16}
use zenith_gb.Cpu.Access.{clock_consume_byte_from_pc, clock_fetch, clock_push_u8}
use zenith_gb.Cpu.Jump.{opcode_call_a16, call}
use zenith_gb.Cpu.Table.{get_instruction}
use zenith_gb.Cpu.Dispatch.{exec}
use zenith_gb.Cpu.Rotate.{rr, rl}
use zenith_gb.Cpu.Rotate.Laws.{rr-rl}
use zenith_gb.Cpu.Step.{check_interrupts, step}
use zenith_gb.Cpu.Step.Interrupts.{find_active_lem}

record Flat : Type 0 where
  time : ℕ
  memory : ℕ → ℕ

abbrev store : ℕ → ℕ → (ℕ → ℕ) → ℕ → ℕ
store address byte memory a = if a == address then byte else memory a

-- IF lies at 0xFF0F and IE at 0xFFFF.
abbrev flat : Bus Flat
flat = record {
  cycles = λ s. s.time;
  clock = λ s. some (record s { time = s.time + 1 });
  clock_read = λ address s. some (s.memory address % 256, record s { time = s.time + 1 });
  clock_write =
      λ address byte s. some (record { time = s.time + 1; memory = store address byte s.memory });
  active_interrupts = λ s. bit_and (s.memory 0xffff) (s.memory 0xff0f);
  clear_interrupt = λ bits s. record s {
    memory = store 0xff0f (bit_and (s.memory 0xff0f) (255 - bits)) s.memory;
  };
  set_cpu_halted = λ halted s. s;
  cgb_speed_switch = λ s. s;
  IsValid = λ s. Unit;
  clock_lem = λ s v. (_, refl, (tt, refl));
  clock_read_lem = λ address s lt v. (_, refl, (omega arith, tt, refl));
  clock_write_lem = λ address byte s lt blt v. (_, refl, (tt, refl));
  clear_interrupt_lem = λ bits s v. (tt, refl);
  set_cpu_halted_lem = λ halted s v. (tt, refl);
  cgb_speed_switch_lem = λ s v. (tt, refl);
}

-- `CALL $1234`, whose opcode 0xCD has been fetched, with IE set to `enabled` and IF to 0x14.
abbrev memory_of : ℕ → Flat
memory_of enabled = record {
  time = 100;
  memory = store 0x101 0x34 (store 0x102 0x12 (store 0xff0f 0x14 (store 0xffff enabled (λ a. 0))));
}

abbrev cpu_at : (opcode pc : ℕ) → (ime halted : Bool) → Cpu
cpu_at opcode pc ime halted = record {
  opcode = opcode;
  reg_af = 0x12b0;
  reg_bc = 0x0102;
  reg_de = 0x0304;
  reg_hl = 0xc000;
  reg_sp = 0xfffe;
  reg_pc = pc;
  branch_skipped = false;
  ime_next = false;
  ime = ime;
  halted = halted;
}

-- Cycles, PC, SP and the two bytes that a call pushes.
abbrev seen : Option (ℕ × Cpu × Flat) → List ℕ
seen none = []
seen (some r) = r.0 ∷ r.1.reg_pc ∷ r.1.reg_sp ∷ r.2.memory 0xfffd ∷ r.2.memory 0xfffc ∷ []

-- The call takes six cycles, jumps and leaves the return address on the stack.
call_runs :
    seen (step flat (cpu_at 0xcd 0x101 false false) (memory_of 0))
    ≡ 6 ∷ 0x1235 ∷ 0xfffc ∷ 0x01 ∷ 0x03 ∷ []
unfolding step check_interrupts get_instruction exec opcode_call_a16 call clock_consume_byte_from_pc
    clock_fetch clock_push_u8 dec_reg16 inc_reg16 value get_high get_low
call_runs = refl

find_active_lem_example : (2 < 5) × (0x14 / 2 ^ 2 % 2 ≡ 1) × (0x14 % 2 ^ 2 ≡ 0)
find_active_lem_example = find_active_lem 0x14 2 refl

rr-rl_example :
    rr (rl 0x81 (af_of 5 false true false true 0)).0 (rl 0x81 (af_of 5 false true false true 0)).1
    ≡ (0x81, af_of 5 (0x81 == 0) false false true 0)
rr-rl_example = rr-rl 0x81 5 false true false true 0 (omega arith) (omega arith) (omega arith)
