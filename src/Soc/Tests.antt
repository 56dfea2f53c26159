-- ===== src/Soc/Tests.antt =====
-- The machine of a DMG whose cartridge is a ROM of zeros, that is of `NOP`.
use zenith_gb.Base.{
  ℕ, ◌+◌, ◌≤◌, ◌≡◌, refl, false, some, replicate, length-replicate, arith, Returns,
}
use zenith_gb.Gameboy.{mode_dmg}
use zenith_gb.Cpu.Registers.{Cpu}
use zenith_gb.Cpu.Registers.Bounds.{IsReady}
use zenith_gb.Cpu.Machine.{Guarded, running, guard}
use zenith_gb.Cpu.Step.{step, check_interrupts}
use zenith_gb.Soc.Read.{read_mapped}
use zenith_gb.Soc.Write.{write_mapped}
use zenith_gb.Soc.Echo.{write_mapped-echo}
use zenith_gb.Soc.State.{Soc, Parts, rom_only, around}
use zenith_gb.Soc.Access.{soc_machine, active_interrupts}
use zenith_gb.Ppu
use zenith_gb.Ppu.Modes.Validity
use zenith_gb.Serial
use zenith_gb.Mbc.{MbcRomOnly}
use zenith_gb.Soc.Steps.{Passed, soc_step_cycles}

abbrev soc : Soc
soc = around false mode_dmg (rom_only (record { rom = replicate 0x8000 0 }))

abbrev cpu : Cpu
cpu = record {
  opcode = 0x00;
  reg_af = 0x01b0;
  reg_bc = 0x0013;
  reg_de = 0x00d8;
  reg_hl = 0x014d;
  reg_sp = 0xfffe;
  reg_pc = 0x101;
  branch_skipped = false;
  ime_next = false;
  ime = false;
  halted = false;
}

soc_step_cycles_example :
    Returns
      (λ (p : ℕ × Cpu × Guarded Soc). IsReady p.1 × Passed soc p.0 p.2 × (1 ≤ p.0) × (p.0 ≤ 11))
      (step (guard (soc_machine false)) cpu (running soc))
unfolding check_interrupts active_interrupts
soc_step_cycles_example =
    soc_step_cycles false cpu soc
      (
        omega arith,
        omega arith,
        omega arith,
        omega arith,
        omega arith,
        omega arith,
        omega arith,
        refl,
      )
      (omega arith) false cpu (running soc) refl refl refl refl

abbrev zeros : MbcRomOnly
zeros = record { rom = replicate 0x8000 0 }

write_mapped-echo_example :
    Returns
      (λ (q : Parts).
        (read_mapped false (0xe000 + 0x1234) q ≡ some 7)
        × (read_mapped false (0xc000 + 0x1234) q ≡ some 7))
      (write_mapped false (0xe000 + 0x1234) 7 soc.parts)
write_mapped-echo_example =
    write_mapped-echo soc.parts false 0x1234 7 (omega arith) (length-replicate {A = ℕ} 0x12000 0)
      refl
