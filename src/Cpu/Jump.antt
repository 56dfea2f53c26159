-- ===== src/Cpu/Jump.antt =====
-- The jumps, calls, stack and control opcodes of src/cpu/inst_impl.rs.
pub mod Timing
pub mod Branches
use zenith_gb.Base.{
  ℕ, ◌+◌, ◌%◌, Bool, true, false, not, Option, none, some, bit_and, ◌>>>◌, ◌==◌, ◌||◌, checked_sub,
  ◌>>=◌, debug_assert, if◌then◌else◌,
}
use zenith_gb.Util.{get_high, get_low, value}
use zenith_gb.Cpu.{get_flag, flag_c, flag_z}
use zenith_gb.Cpu.Bus.{Bus}
use zenith_gb.Cpu.Registers.{Cpu, read_r16stk_msb, read_r16stk_lsb, write_r16stk}
use zenith_gb.Cpu.Access.{clock_consume_byte_from_pc, clock_push_u8, clock_pop_u16}
use zenith_gb.Cpu.Load.{sign_extend}

-- The `match` on two bits of the opcode that the four conditional opcodes share.
unfoldable pub branch_taken : ℕ → Cpu → Option Bool
branch_taken opcode cpu =
    let flag = bit_and (opcode >>> 3) 0x3 in
    if flag == 3
    then some (get_flag cpu.reg_af flag_c)
    else if flag == 2
    then some (not (get_flag cpu.reg_af flag_c))
    else if flag == 1
    then some (get_flag cpu.reg_af flag_z)
    else if flag == 0
    then some (not (get_flag cpu.reg_af flag_z))
    else none

-- `pc_val.wrapping_add_signed(e.into())`
abbrev jump_by : ℕ → Cpu → Cpu
jump_by e cpu = record cpu { reg_pc = (cpu.reg_pc + sign_extend e) % 65536 }

abbrev skip : Cpu → Cpu
skip cpu = record cpu { branch_skipped = true }

pub opcode_jp_hl : Cpu → Cpu
opcode_jp_hl cpu = record cpu { reg_pc = cpu.reg_hl }

pub opcode_di : Cpu → Cpu
opcode_di cpu = record cpu { ime = false }

pub opcode_ei : Cpu → Cpu
opcode_ei cpu = record cpu { ime_next = true }

module _ {S : Type 0} (bus : Bus S) where
  open bus use {clock, active_interrupts, set_cpu_halted, cgb_speed_switch}

  pub opcode_stop : ℕ → Cpu → S → Option (Cpu × S)
  opcode_stop opcode cpu soc = do
    _ ← debug_assert (opcode == 0x10)
    some (cpu, cgb_speed_switch soc)

  pub opcode_halt : Cpu → S → Cpu × S
  opcode_halt cpu soc =
      if cpu.ime || active_interrupts soc == 0
      then (record cpu { halted = true }, set_cpu_halted true soc)
      else (cpu, soc)

  pub opcode_jr_e8 : Cpu → S → Option (Cpu × S)
  opcode_jr_e8 cpu soc = do
    (e, cpu, soc) ← clock_consume_byte_from_pc bus cpu soc
    let cpu = jump_by e cpu
    soc ← clock soc
    some (cpu, soc)

  pub opcode_jr_cc : ℕ → Cpu → S → Option (Cpu × S)
  opcode_jr_cc opcode cpu soc = do
    _ ← debug_assert (opcode == 0x20 || opcode == 0x28 || opcode == 0x30 || opcode == 0x38)
    taken ← branch_taken opcode cpu
    (e, cpu, soc) ← clock_consume_byte_from_pc bus cpu soc
    if taken then (clock soc >>= (λ soc. some (jump_by e cpu, soc))) else some (skip cpu, soc)

  -- The common end of `RET` and of a `RET cc` that is taken.
  abbrev return_from : Cpu → S → Option (Cpu × S)
  return_from cpu soc = do
    (ret_val, cpu, soc) ← clock_pop_u16 bus cpu soc
    let cpu = record cpu { reg_pc = ret_val }
    soc ← clock soc
    some (cpu, soc)

  pub opcode_ret : Cpu → S → Option (Cpu × S)
  opcode_ret cpu soc = return_from cpu soc

  pub opcode_ret_cc : ℕ → Cpu → S → Option (Cpu × S)
  opcode_ret_cc opcode cpu soc = do
    _ ← debug_assert (opcode == 0xc0 || opcode == 0xc8 || opcode == 0xd0 || opcode == 0xd8)
    taken ← branch_taken opcode cpu
    soc ← clock soc
    if taken then return_from cpu soc else some (skip cpu, soc)

  pub opcode_push : ℕ → Cpu → S → Option (Cpu × S)
  opcode_push opcode cpu soc = do
    let reg = bit_and (opcode >>> 4) 0x3
    soc ← clock soc
    msb ← read_r16stk_msb reg cpu
    (cpu, soc) ← clock_push_u8 bus msb cpu soc
    lsb ← read_r16stk_lsb reg cpu
    clock_push_u8 bus lsb cpu soc

  pub opcode_pop : ℕ → Cpu → S → Option (Cpu × S)
  opcode_pop opcode cpu soc = do
    let reg = bit_and (opcode >>> 4) 0x3
    (val, cpu, soc) ← clock_pop_u16 bus cpu soc
    cpu ← write_r16stk reg val cpu
    some (cpu, soc)

  pub opcode_jp_a16 : Cpu → S → Option (Cpu × S)
  opcode_jp_a16 cpu soc = do
    (lsb, cpu, soc) ← clock_consume_byte_from_pc bus cpu soc
    (msb, cpu, soc) ← clock_consume_byte_from_pc bus cpu soc
    let cpu = record cpu { reg_pc = value msb lsb }
    soc ← clock soc
    some (cpu, soc)

  pub opcode_jp_cc : ℕ → Cpu → S → Option (Cpu × S)
  opcode_jp_cc opcode cpu soc = do
    (lsb, cpu, soc) ← clock_consume_byte_from_pc bus cpu soc
    (msb, cpu, soc) ← clock_consume_byte_from_pc bus cpu soc
    taken ← branch_taken opcode cpu
    if taken
        then (clock soc >>= (λ soc. some (record cpu { reg_pc = value msb lsb }, soc)))
        else some (skip cpu, soc)

  -- `CPU::call`
  unfoldable pub call : (addr_msb addr_lsb : ℕ) → Cpu → S → Option (Cpu × S)
  call addr_msb addr_lsb cpu soc = do
    soc ← clock soc
    (cpu, soc) ← clock_push_u8 bus (get_high cpu.reg_pc) cpu soc
    (cpu, soc) ← clock_push_u8 bus (get_low cpu.reg_pc) cpu soc
    some (record cpu { reg_pc = value addr_msb addr_lsb }, soc)

  unfoldable pub opcode_call_a16 : Cpu → S → Option (Cpu × S)
  opcode_call_a16 cpu soc = do
    (lsb, cpu, soc) ← clock_consume_byte_from_pc bus cpu soc
    (msb, cpu, soc) ← clock_consume_byte_from_pc bus cpu soc
    call msb lsb cpu soc

  pub opcode_call_cc : ℕ → Cpu → S → Option (Cpu × S)
  opcode_call_cc opcode cpu soc = do
    (lsb, cpu, soc) ← clock_consume_byte_from_pc bus cpu soc
    (msb, cpu, soc) ← clock_consume_byte_from_pc bus cpu soc
    _ ← debug_assert (opcode == 0xc4 || opcode == 0xcc || opcode == 0xd4 || opcode == 0xdc)
    taken ← branch_taken opcode cpu
    if taken then call msb lsb cpu soc else some (skip cpu, soc)

  pub opcode_rst : ℕ → Cpu → S → Option (Cpu × S)
  opcode_rst opcode cpu soc = do
    soc ← clock soc
    (cpu, soc) ← clock_push_u8 bus (get_high cpu.reg_pc) cpu soc
    (cpu, soc) ← clock_push_u8 bus (get_low cpu.reg_pc) cpu soc
    addr ← checked_sub opcode 0xc7
    some (record cpu { reg_pc = value 0 addr }, soc)

  pub opcode_reti : Cpu → S → Option (Cpu × S)
  opcode_reti cpu soc = do
    (ret_val, cpu, soc) ← clock_pop_u16 bus cpu soc
    let cpu = record cpu { reg_pc = ret_val; ime = true }
    soc ← clock soc
    some (cpu, soc)
