-- ===== src/Apu/Unit/Map.antt =====
-- src/soc/soc.rs, the sound registers of the memory map, and runs of the unit.
pub mod Runs
use zenith_gb.Base.{
  ℕ, ◌+◌, ◌-◌, Bool, true, false, ◌&&◌, List, [], ◌∷◌, Option, none, some, leb, between, ◌==◌,
  ◌>>=◌, if◌then◌else◌,
}
use zenith_gb.Apu.Channel1
use zenith_gb.Apu.Channel2
use zenith_gb.Apu.Channel3
use zenith_gb.Apu.Channel4
use zenith_gb.Apu.Unit.{Apu, clock}
use zenith_gb.Apu.Unit.Registers.{
  write_nr10, write_nr11, write_nr12, write_nr13, write_nr14, write_nr21, write_nr22, write_nr23,
  write_nr24, write_nr30, write_nr31, write_nr32, write_nr33, write_nr34, write_nr41, write_nr42,
  write_nr43, write_nr44, write_nr50, write_nr51, write_nr52, write_wave_ram, read_nr50, read_nr51,
  read_nr52, read_write_only,
}

-- The sound registers of the memory map, in the order of their addresses.
pub data Register : Type 0 where
  nr10 : Register
  nr11 : Register
  nr12 : Register
  nr13 : Register
  nr14 : Register
  nr21 : Register
  nr22 : Register
  nr23 : Register
  nr24 : Register
  nr30 : Register
  nr31 : Register
  nr32 : Register
  nr33 : Register
  nr34 : Register
  nr41 : Register
  nr42 : Register
  nr43 : Register
  nr44 : Register
  nr50 : Register
  nr51 : Register
  nr52 : Register
  wave_ram : (address : ℕ) → Register

-- A write, once the clock that it takes has passed.
pub write : Apu → Register → (byte : ℕ) → Option Apu
write a nr10 byte = some (write_nr10 a byte)
write a nr11 byte = some (write_nr11 a byte)
write a nr12 byte = some (write_nr12 a byte)
write a nr13 byte = some (write_nr13 a byte)
write a nr14 byte = write_nr14 a byte
write a nr21 byte = some (write_nr21 a byte)
write a nr22 byte = some (write_nr22 a byte)
write a nr23 byte = some (write_nr23 a byte)
write a nr24 byte = write_nr24 a byte
write a nr30 byte = some (write_nr30 a byte)
write a nr31 byte = some (write_nr31 a byte)
write a nr32 byte = some (write_nr32 a byte)
write a nr33 byte = some (write_nr33 a byte)
write a nr34 byte = write_nr34 a byte
write a nr41 byte = some (write_nr41 a byte)
write a nr42 byte = some (write_nr42 a byte)
write a nr43 byte = some (write_nr43 a byte)
write a nr44 byte = write_nr44 a byte
write a nr50 byte = some (write_nr50 a byte)
write a nr51 byte = some (write_nr51 a byte)
write a nr52 byte = some (write_nr52 a byte)
write a (wave_ram address) byte = write_wave_ram a address byte

pub read : Apu → Register → Option ℕ
read a nr10 = some (Channel1.read_nr10 a.channel1)
read a nr11 = some (Channel1.read_nr11 a.channel1)
read a nr12 = some (Channel1.read_nr12 a.channel1)
read a nr13 = some read_write_only
read a nr14 = some (Channel1.read_nr14 a.channel1)
read a nr21 = some (Channel2.read_nr21 a.channel2)
read a nr22 = some (Channel2.read_nr22 a.channel2)
read a nr23 = some read_write_only
read a nr24 = some (Channel2.read_nr24 a.channel2)
read a nr30 = some (Channel3.read_nr30 a.channel3)
read a nr31 = some read_write_only
read a nr32 = some (Channel3.read_nr32 a.channel3)
read a nr33 = some read_write_only
read a nr34 = some (Channel3.read_nr34 a.channel3)
read a nr41 = some read_write_only
read a nr42 = some (Channel4.read_nr42 a.channel4)
read a nr43 = some (Channel4.read_nr43 a.channel4)
read a nr44 = some (Channel4.read_nr44 a.channel4)
read a nr50 = some (read_nr50 a)
read a nr51 = some (read_nr51 a)
read a nr52 = some (read_nr52 a)
read a (wave_ram address) = Channel3.read_wave_ram a.channel3 address

-- What the rest of the machine does with the unit: clocks, and bytes written to its registers.
pub data Operation : Type 0 where
  clock_apu : Operation
  write_to : (register : Register) → (byte : ℕ) → Operation

pub perform : Apu → Operation → Option Apu
perform a clock_apu = clock a >>= λ r. some r.0
perform a (write_to register byte) = write a register byte

unfoldable pub run : List Operation → Apu → Option Apu
run [] a = some a
run (o ∷ os) a = perform a o >>= run os
