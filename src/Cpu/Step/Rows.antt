-- ===== src/Cpu/Step/Rows.antt =====
-- The rows of the instruction tables agree with the functions that they point to.
use zenith_gb.Base.{
  ℕ, ◌+◌, ◌<◌, ◌≡◌, refl, Bool, true, false, ◌&&◌, ◌||◌, Option, none, some, ◌==◌, leb, ◌≤◌, arith,
  Returns, all_below_sound,
}
use zenith_gb.Cpu.Instruction.{Instruction}
use zenith_gb.Cpu.Table.{get_instruction, get_instruction_cb}
use zenith_gb.Cpu.Dispatch.Costs.{expects, taken_cycles, is_skipped_cost}

-- A row fits its opcode, with `k` cycles around the function.
abbrev pub is_sound_row : ℕ → Option Instruction → ℕ → Bool
is_sound_row k none opcode = false
is_sound_row k (some inst) opcode =
    expects inst.exec inst.src opcode
    && inst.cycles == taken_cycles inst.exec inst.src opcode + k
    && is_skipped_cost inst.exec k inst.cycles_skipped
    && leb inst.cycles 6
    && leb inst.cycles_skipped 6

-- The eleven opcodes that do not exist.
abbrev pub is_illegal : ℕ → Bool
is_illegal opcode =
    opcode == 0xd3
    || opcode == 0xdb
    || opcode == 0xdd
    || opcode == 0xe3
    || opcode == 0xe4
    || opcode == 0xeb
    || opcode == 0xec
    || opcode == 0xed
    || opcode == 0xf4
    || opcode == 0xfc
    || opcode == 0xfd

-- What is known of the row of an opcode.
abbrev pub IsRow : ℕ → ℕ → Instruction → Type 0
IsRow k opcode inst =
    (expects inst.exec inst.src opcode ≡ true)
    × (inst.cycles ≡ taken_cycles inst.exec inst.src opcode + k)
    × (is_skipped_cost inst.exec k inst.cycles_skipped ≡ true)
    × (inst.cycles ≤ 6)
    × (inst.cycles_skipped ≤ 6)

sound-IsRow :
    (k opcode : ℕ) (inst : Option Instruction)
    → is_sound_row k inst opcode ≡ true
    → Returns (IsRow k opcode) inst
sound-IsRow k opcode none e = absurd (ground arith)
sound-IsRow k opcode (some inst) e =
    (inst, refl, (ground arith, ground arith, ground arith, ground arith, ground arith))

pub get_instruction_lem :
    (opcode : ℕ)
    → opcode < 256
    → is_illegal opcode ≡ false
    → (opcode == 0x08) ≡ false
    → (opcode == 0xcb) ≡ false
    → Returns (IsRow 1 opcode) (get_instruction opcode)
unfolding get_instruction
get_instruction_lem opcode lt legal ne8 necb =
    let test : Bool =
      is_illegal opcode
      || opcode == 0x08
      || opcode == 0xcb
      || is_sound_row 1 (get_instruction opcode) opcode in
    let all : test ≡ true =
      all_below_sound 256
        (λ o. is_illegal o || o == 0x08 || o == 0xcb || is_sound_row 1 (get_instruction o) o) opcode
        refl lt in
    sound-IsRow 1 opcode _ (simp (legal, ne8, necb) at all)

pub get_instruction_cb_lem :
    (opcode : ℕ) → opcode < 256 → Returns (IsRow 2 opcode) (get_instruction_cb opcode)
unfolding get_instruction_cb
get_instruction_cb_lem opcode lt =
    sound-IsRow 2 opcode _
      (all_below_sound 256 (λ o. is_sound_row 2 (get_instruction_cb o) o) opcode refl lt)
