-- ===== src/Cpu/Init.antt =====
-- `CPU::init` of src/cpu/cpu.rs: the registers as the boot ROM leaves them, by the mode of the
-- machine, and the first opcode.
use zenith_gb.Base.{
  ℕ, ◌<◌, ◌≡◌, refl, Bool, true, false, not, List, Option, some, ◌==◌, get_elem?, arith, ◌>>=◌,
  Returns, Returns-some,
}
use zenith_gb.Gameboy.{CompatibilityMode, mode_cgb, mode_cgb_dmg, mode_dmg}
use zenith_gb.Cpu.Registers.{Cpu, set_reg8, inc_reg16, set_znhc}
use zenith_gb.Cpu.Registers.Bounds.{IsReady, set_reg8-lt, set_znhc-lt}

-- The seven `set` of a mode, SP and PC.
abbrev set_registers : (a b c d e h l : ℕ) → Cpu → Cpu
set_registers a b c d e h l cpu = record cpu {
  reg_af = set_reg8 true a cpu.reg_af;
  reg_bc = set_reg8 false c (set_reg8 true b cpu.reg_bc);
  reg_de = set_reg8 false e (set_reg8 true d cpu.reg_de);
  reg_hl = set_reg8 false l (set_reg8 true h cpu.reg_hl);
  reg_sp = 0xfffe;
  reg_pc = 0x100;
}

-- The four `set_flag` of a mode, of which H and C are the same.
abbrev set_flags : Bool → Cpu → Cpu
set_flags carry cpu = record cpu { reg_af = set_znhc true false carry carry cpu.reg_af }

pub init_registers : CompatibilityMode → (header_checksum : ℕ) → Cpu → Cpu
init_registers mode_cgb header_checksum cpu =
    set_flags false (set_registers 0x11 0 0 0xff 0x56 0 0x0d cpu)
init_registers mode_cgb_dmg header_checksum cpu =
    set_flags false (set_registers 0x11 0 0 0 0x08 0 0x7c cpu)
init_registers mode_dmg header_checksum cpu =
    set_flags (not (header_checksum == 0)) (set_registers 0x01 0 0x13 0 0xd8 0x01 0x4d cpu)

-- Of the cartridge, the checksum of its header and its bytes.
pub init : CompatibilityMode → (header_checksum : ℕ) → List ℕ → Cpu → Option Cpu
init mode header_checksum rom cpu = do
  let cpu = init_registers mode header_checksum cpu
  opcode ← get_elem? rom 0x100
  some (record cpu { opcode = opcode; reg_pc = inc_reg16 cpu.reg_pc })

module _ (cpu : Cpu) (ready : IsReady cpu) where
  set_registers-IsReady :
      (a b c d e h l : ℕ)
      → a < 256
      → b < 256
      → c < 256
      → d < 256
      → e < 256
      → h < 256
      → l < 256
      → IsReady (set_registers a b c d e h l cpu)
  set_registers-IsReady a b c d e h l ha hb hc hd he hh hl = (
    ready.0,
    set_reg8-lt true a _ ha ready.1,
    set_reg8-lt false c _ hc (set_reg8-lt true b _ hb ready.2),
    set_reg8-lt false e _ he (set_reg8-lt true d _ hd ready.3),
    set_reg8-lt false l _ hl (set_reg8-lt true h _ hh ready.4),
    omega arith,
    omega arith,
    ready.7,
  )

set_flags-IsReady : (carry : Bool) (cpu : Cpu) → IsReady cpu → IsReady (set_flags carry cpu)
set_flags-IsReady carry cpu r =
    (r.0, set_znhc-lt true false carry carry cpu.reg_af r.1, r.2, r.3, r.4, r.5, r.6, r.7)

init_registers-IsReady :
    (mode : CompatibilityMode) (header_checksum : ℕ) (cpu : Cpu)
    → IsReady cpu
    → IsReady (init_registers mode header_checksum cpu)
unfolding init_registers
init_registers-IsReady mode_cgb header_checksum cpu ready =
    set_flags-IsReady false (set_registers 0x11 0 0 0xff 0x56 0 0x0d cpu) (
      set_registers-IsReady cpu ready 0x11 0 0 0xff 0x56 0 0x0d (omega arith) (omega arith)
        (omega arith) (omega arith) (omega arith) (omega arith) (omega arith))
init_registers-IsReady mode_cgb_dmg header_checksum cpu ready =
    set_flags-IsReady false (set_registers 0x11 0 0 0 0x08 0 0x7c cpu) (
      set_registers-IsReady cpu ready 0x11 0 0 0 0x08 0 0x7c (omega arith) (omega arith)
        (omega arith) (omega arith) (omega arith) (omega arith) (omega arith))
init_registers-IsReady mode_dmg header_checksum cpu ready =
    set_flags-IsReady (not (header_checksum == 0)) (set_registers 0x01 0 0x13 0 0xd8 0x01 0x4d cpu)
      (set_registers-IsReady cpu ready 0x01 0 0x13 0 0xd8 0x01 0x4d (omega arith) (omega arith)
        (omega arith) (omega arith) (omega arith) (omega arith) (omega arith))

-- What `init` leaves.
abbrev pub Started : (opcode : ℕ) (cpu c : Cpu) → Type 0
Started opcode cpu c =
    IsReady c × (c.opcode ≡ opcode) × (c.reg_pc ≡ 0x101) × (c.halted ≡ cpu.halted)

-- From a processor in order and a cartridge with an opcode at 0x100, `init` leaves a processor in
-- order that is about to execute that opcode, with PC behind it.
pub init-IsReady :
    (mode : CompatibilityMode) (header_checksum : ℕ) (rom : List ℕ) (cpu : Cpu) (opcode : ℕ)
    → IsReady cpu
    → get_elem? rom 0x100 ≡ some opcode
    → opcode < 256
    → Returns (Started opcode cpu) (init mode header_checksum rom cpu)
unfolding init init_registers inc_reg16
init-IsReady mode_cgb header_checksum rom cpu opcode ready at_100 lt =
    let r = init_registers-IsReady mode_cgb header_checksum cpu ready in
    simp at_100 (Returns-some ((lt, r.1, r.2, r.3, r.4, r.5, omega arith, r.7), refl, refl, refl))
init-IsReady mode_cgb_dmg header_checksum rom cpu opcode ready at_100 lt =
    let r = init_registers-IsReady mode_cgb_dmg header_checksum cpu ready in
    simp at_100 (Returns-some ((lt, r.1, r.2, r.3, r.4, r.5, omega arith, r.7), refl, refl, refl))
init-IsReady mode_dmg header_checksum rom cpu opcode ready at_100 lt =
    let r = init_registers-IsReady mode_dmg header_checksum cpu ready in
    simp at_100 (Returns-some ((lt, r.1, r.2, r.3, r.4, r.5, omega arith, r.7), refl, refl, refl))
