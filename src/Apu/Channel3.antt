-- ===== src/Apu/Channel3.antt =====
-- src/apu/channel3.rs: samples from the wave RAM.
pub mod Bytes
pub mod Bounds
use zenith_gb.Base.{
  ℕ, zero, suc, ◌+◌, ◌-◌, ◌*◌, ◌%◌, ◌/◌, ◌^◌, Bool, true, false, ◌&&◌, ◌||◌, not, List, [], ◌∷◌,
  Option, none, some, bit_and, bit_or, bit_xor, ◌<<<◌, ◌>>>◌, u8, u16, ◌==◌, ◌!=◌, ltb, leb,
  get_elem?, set?, replicate, checked_sub, of_bool, ◌>>=◌, if◌then◌else◌,
}
use zenith_gb.Apu.LengthCounter

abbrev pub length_counter_init : ℕ
length_counter_init = 256

-- `cgb` is `ctx.cgb`.
pub record Channel3 : Type 0 where
  pub freq_timer : ℕ
  pub last_sample_step : ℕ
  pub length_counter : LengthCounter.LengthCounter
  pub is_enabled : Bool
  pub sample_index : ℕ
  pub reg_dac_enable : Bool
  pub reg_volume : ℕ
  pub reg_frequency : ℕ
  pub wave_ram : List ℕ
  pub sample : ℕ
  pub cgb : Bool

pub new : (cgb : Bool) → Channel3
new cgb = record {
  freq_timer = 0;
  last_sample_step = 0;
  length_counter = LengthCounter.new length_counter_init cgb;
  is_enabled = false;
  sample_index = 0;
  reg_dac_enable = false;
  reg_volume = 0;
  reg_frequency = 0;
  wave_ram = replicate 16 0;
  sample = 0;
  cgb = cgb;
}

-- `Channel::is_enabled`
pub is_on : Channel3 → Bool
is_on c = c.is_enabled && c.reg_dac_enable

-- `wave_ram[i] = wave_ram[from]`
abbrev pub copy_byte : (i from : ℕ) → List ℕ → Option (List ℕ)
copy_byte i from ram = get_elem? ram from >>= λ b. set? ram i b

-- The corruption of the wave RAM by a trigger while a byte is read.
pub corrupt : (sample_index : ℕ) → List ℕ → Option (List ℕ)
corrupt sample_index ram =
    let next_byte_index = u8 (sample_index / 2) in
    let aligned_index = bit_and next_byte_index 0xfc in
    if ltb next_byte_index 4
    then copy_byte 0 next_byte_index ram
    else (copy_byte 0 aligned_index ram
        >>= copy_byte 1 (aligned_index + 1)
        >>= copy_byte 2 (aligned_index + 2)
        >>= copy_byte 3 (aligned_index + 3))

pub trigger : Channel3 → Option Channel3
trigger c = do
  ram ←
      if c.freq_timer == 2 && is_on c && not c.cgb
      then corrupt c.sample_index c.wave_ram
      else some c.wave_ram
  some
      (record c { wave_ram = ram; is_enabled = c.reg_dac_enable; freq_timer = 6; sample_index = 0 })

pub write_nr30 : Channel3 → ℕ → Channel3
write_nr30 c byte =
    let dac = bit_and byte 0x80 != 0 in
    record c { reg_dac_enable = dac; is_enabled = c.is_enabled && dac }

pub write_nr31 : Channel3 → ℕ → Channel3
write_nr31 c byte = record c {
  length_counter = LengthCounter.set_count c.length_counter (length_counter_init - byte);
}

pub write_nr32 : Channel3 → ℕ → Channel3
write_nr32 c byte = record c { reg_volume = bit_and byte 0x60 >>> 5 }

pub write_nr33 : Channel3 → ℕ → Channel3
write_nr33 c byte = record c { reg_frequency = bit_or (bit_and c.reg_frequency 0x700) byte }

pub write_nr34 : Channel3 → ℕ → Option Channel3
write_nr34 c byte = do
  let trigger_bit = bit_and byte 0x80 != 0
  counter ← LengthCounter.write_nrx4 c.length_counter trigger_bit (bit_and byte 0x40 != 0)
  let c' = record c {
    reg_frequency = bit_or (bit_and byte 0x7 <<< 8) (bit_and c.reg_frequency 0xff);
    length_counter = counter;
  }
  if counter.enabled && counter.count == 0
      then some (record c' { is_enabled = false })
      else if trigger_bit
      then trigger c'
      else some c'

-- `last_sample_index`
abbrev pub last_sample_index : Channel3 → ℕ
last_sample_index c = if c.sample_index == 0 then 31 else c.sample_index - 1

pub write_wave_ram : Channel3 → (addr byte : ℕ) → Option Channel3
write_wave_ram c addr byte =
    if is_on c
    then if ltb c.last_sample_step 2 || c.cgb
      then (set? c.wave_ram (last_sample_index c / 2) byte >>= λ ram.
          some (record c { wave_ram = ram }))
      else some c
    else (set? c.wave_ram (bit_and addr 0xf) byte >>= λ ram. some (record c { wave_ram = ram }))

pub read_nr30 : Channel3 → ℕ
read_nr30 c = bit_or (of_bool c.reg_dac_enable <<< 7) 0x7f

pub read_nr32 : Channel3 → ℕ
read_nr32 c = bit_or (u8 (c.reg_volume <<< 5)) 0x9f

pub read_nr34 : Channel3 → ℕ
read_nr34 c = bit_or 0xbf (of_bool c.length_counter.enabled <<< 6)

pub read_wave_ram : Channel3 → ℕ → Option ℕ
read_wave_ram c addr =
    if is_on c
    then if ltb c.last_sample_step 2 || c.cgb
      then get_elem? c.wave_ram (last_sample_index c / 2)
      else some 0xff
    else get_elem? c.wave_ram (bit_and addr 0xf)

-- A nibble of a byte of the wave RAM, at the volume.
pub wave_sample : (reg_volume sample_index byte : ℕ) → ℕ
wave_sample reg_volume sample_index byte =
    let nibble = if sample_index % 2 == 0 then byte >>> 4 else bit_and byte 0xf in
    if reg_volume == 0 then nibble >>> 4 else nibble >>> (reg_volume - 1)

-- The part of `clock` that follows the reload of the timer.
pub next_sample : Channel3 → Option Channel3
next_sample c =
    if is_on c
    then (get_elem? c.wave_ram (c.sample_index / 2) >>= λ byte. some (record c {
      sample = wave_sample c.reg_volume c.sample_index byte;
      sample_index = (c.sample_index + 1) % 32;
      last_sample_step = 0;
    }))
    else some (record c { sample = 0 })

pub clock : Channel3 → Option Channel3
clock c =
    let c' =
      if c.last_sample_step != 0xff
      then record c { last_sample_step = c.last_sample_step + 1 }
      else c in
    if ltb 1 c'.freq_timer
    then some (record c' { freq_timer = c'.freq_timer - 1 })
    else (checked_sub 2048 c'.reg_frequency >>= λ p. next_sample (record c' { freq_timer = p * 2 }))

pub length_clock : Channel3 → Channel3
length_clock c =
    let (counter, expired) = LengthCounter.clock c.length_counter in
    record c { length_counter = counter; is_enabled = c.is_enabled && not expired }

pub shutdown : Channel3 → Channel3
shutdown c = record c {
  is_enabled = false;
  reg_dac_enable = false;
  reg_frequency = 0;
  reg_volume = 0;
  sample_index = 0;
  length_counter = LengthCounter.shutdown c.length_counter;
}
