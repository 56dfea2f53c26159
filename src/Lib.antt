-- ===== src/Lib.antt =====
-- zenith.gb, a Game Boy and Game Boy Color emulator.
--
-- The machine is a system-on-chip (src/soc/soc.rs) that owns the memory and clocks its parts once per
-- machine cycle: the timer, the sound unit, the serial port, the picture unit and the controller of
-- the cartridge. The processor (src/cpu) reads and writes through it. A part raises interrupts
-- through a `ClockContext` that is passed to its clock. This library models the parts, the machine that
-- clocks them, and the processor over an interface of the machine:
--
-- - Base: natural numbers as machine words, bits, lists with bounds, code that may panic.
-- - Util (src/util/util.rs): bytes of a word, the joypad lines.
-- - Soc (src/soc): Context, what the parts share; State, the fields of `SOC` and their start; Read and
--   Write, the memory map and its registers; Dma, the two transfers; Clock, one cycle of all parts;
--   Access, the calls of the processor; Steps, Runs, Nop and Echo, the machine with and without the
--   processor, and its memory.
-- - Gameboy (src/gameboy/gameboy.rs): the compatibility mode.
-- - Timer (src/timer/timer.rs): the divider, TIMA, its overflow, and the register writes.
-- - Cartridge (src/cartridge/cartridge.rs): the header and its checksum.
-- - Mbc (src/mbc): the four bank controllers, the real-time clock of the MBC3, and save files.
-- - Apu (src/apu): the length counter, the envelope, the sweep, the four channels, and in Apu/Unit
--   the frame sequencer, the mixer, the registers and their place in the memory map.
-- - Serial (src/serial): the port and the printer.
-- - Cpu (src/cpu): flags and arithmetic on the accumulator; Registers (src/cpu/register.rs and the
--   registers of src/cpu/cpu.rs); Bus, what the processor sees of the machine; Access, Load, Alu,
--   Rotate, Jump and Bitwise, the opcodes of src/cpu/inst_impl.rs; Instruction and Table, the tables
--   of src/cpu/inst_def.rs; Dispatch, what their function pointers point to; Step, interrupts and the
--   step of src/cpu/cpu.rs; Init, the registers after the boot ROM. The modules Timing and Cycles
--   below them count machine cycles.
-- - Ppu (src/ppu/ppu.rs): the modes of a line, the scan of the object memory, the length of mode 3,
--   LCDC, STAT and LYC, and in Ppu/Memory the accesses of OAM, VRAM and the palettes.
--
-- Correspondence. A struct is a record of the same fields, an enum a data type of the same
-- constructors, and a method a function of the same name from the state before to the state after;
-- what it also returns, or does to a `ClockContext`, stands beside the new state. A method or struct
-- of the source has its name in snake case or in upper camel case here. `none` is a panic in a build
-- with debug assertions and overflow checks: an index out of bounds, a failed assertion, a checked
-- subtraction below zero, a remainder by zero, `unreachable!`. A word of w bits is a natural number;
-- truncation is written out as a remainder, and `wrapping_*` as such. The arithmetic of a `u8` or
-- `u16` that cannot leave its range is written without a check.
--
-- Foreign code and I/O. Where a save file lies and what it holds is an argument of `load`; what a
-- save writes is the value of `save`. The mixer's samples and the printer's pictures are values;
-- sending them to a sound device or writing them as a bitmap is not modelled. What `PPU::vsync`
-- returns, that the receiver of frames is gone, is the argument `exit` of the clock. `ctx.cgb` is a
-- field of the states that read it.
--
-- Loops are by structural recursion on a count or a list: runs of `n` clocks, lists of operations,
-- the bytes of a transfer, the passes of `APU::clock`. The loop of `calc_mode3_len` is on fuel, 170
-- rounds: each of them moves on by one of 160 pixels or fetches one of at most ten sprites.
--
-- Interfaces. The processor takes the machine as a record `Cpu.Bus.Bus`: the calls of `SOC` that
-- src/cpu makes, with what they promise. `Cpu.Machine.guard` makes such a bus of a machine whose calls
-- may panic, by going on in a state of its own after a panic; `Soc.Access.soc_machine` is the SOC as
-- that machine. A test also fills the bus with a flat memory.
--
-- Not modelled here: the pixels that the picture unit draws (the panics on their way are), the input
-- channel of the joypad, the events and the timed save of src/soc/soc.rs, the channel of the
-- debugger's breakpoint, and the frontend.
pub mod Base
pub mod Util
pub mod Soc
pub mod Gameboy
pub mod Timer
pub mod Cartridge
pub mod Mbc
pub mod Apu
pub mod Serial
pub mod Cpu
pub mod Ppu
