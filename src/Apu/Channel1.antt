-- ===== src/Apu/Channel1.antt =====
-- src/apu/channel1.rs: a square wave with a sweep.
pub mod Bounds
use zenith_gb.Base.{
  ℕ, zero, suc, ◌+◌, ◌-◌, ◌*◌, ◌%◌, ◌/◌, ◌^◌, Bool, true, false, ◌&&◌, ◌||◌, not, List, [], ◌∷◌,
  Option, none, some, bit_and, bit_or, bit_xor, ◌<<<◌, ◌>>>◌, u8, u16, ◌==◌, ◌!=◌, ltb, leb,
  get_elem?, set?, replicate, checked_sub, of_bool, ◌>>=◌, if◌then◌else◌,
}
use zenith_gb.Apu.Sweep
use zenith_gb.Apu.Envelope
use zenith_gb.Apu.LengthCounter

abbrev pub length_counter_init : ℕ
length_counter_init = 64

abbrev pub duty_wave : List ℕ
duty_wave = 0b00000001 ∷ 0b10000001 ∷ 0b10000111 ∷ 0b01111110 ∷ []

pub record Channel1 : Type 0 where
  pub freq_timer : ℕ
  pub sweep : Sweep.Sweep
  pub envelope : Envelope.Envelope
  pub length_counter : LengthCounter.LengthCounter
  pub is_enabled : Bool
  pub duty_cycle : ℕ
  pub reg_waveduty : ℕ
  pub reg_dac_enable : Bool
  pub sample : ℕ

pub new : (cgb : Bool) → Channel1
new cgb = record {
  freq_timer = 0;
  sweep = Sweep.new;
  envelope = Envelope.new 0xf false 3;
  length_counter = LengthCounter.new length_counter_init cgb;
  is_enabled = true;
  duty_cycle = 0;
  reg_waveduty = 2;
  reg_dac_enable = true;
  sample = 0;
}

-- `self.is_enabled = false` on an overflow.
abbrev pub disable_if : Bool → Channel1 → Channel1
disable_if off c = record c { is_enabled = c.is_enabled && not off }

pub sweep_clock : Channel1 → Option Channel1
sweep_clock c = do
  (sweep, is_overflow) ← Sweep.clock c.sweep
  some (disable_if is_overflow (record c { sweep = sweep }))

-- The period that the timer is loaded with.
abbrev pub period : Channel1 → Option ℕ
period c = checked_sub 2048 c.sweep.reg_frequency >>= λ p. some (p * 4)

pub trigger : Channel1 → Option Channel1
trigger c = do
  timer ← period c
  let (sweep, is_overflow) = Sweep.trigger c.sweep
  some (
      disable_if is_overflow (record c {
        is_enabled = c.reg_dac_enable;
        freq_timer = timer;
        envelope = Envelope.trigger c.envelope;
        sweep = sweep;
      }))

pub write_nr10 : Channel1 → ℕ → Channel1
write_nr10 c byte =
    let (sweep, disable_channel) = Sweep.write_nr10 c.sweep byte in
    disable_if disable_channel (record c { sweep = sweep })

pub write_nr11 : Channel1 → ℕ → Channel1
write_nr11 c byte = record c {
  length_counter =
      LengthCounter.set_count c.length_counter (length_counter_init - bit_and byte 0x3f);
  reg_waveduty = bit_and (byte >>> 6) 0x3;
}

pub write_nr12 : Channel1 → ℕ → Channel1
write_nr12 c byte =
    let dac = bit_and byte 0xf8 != 0 in
    record c {
      reg_dac_enable = dac;
      is_enabled = c.is_enabled && dac;
      envelope = Envelope.write_nrx2 c.envelope byte;
    }

pub write_nr13 : Channel1 → ℕ → Channel1
write_nr13 c byte = record c { sweep = Sweep.set_frequency_lsb c.sweep byte }

pub write_nr14 : Channel1 → ℕ → Option Channel1
write_nr14 c byte = do
  let trigger_bit = bit_and byte 0x80 != 0
  counter ← LengthCounter.write_nrx4 c.length_counter trigger_bit (bit_and byte 0x40 != 0)
  let c' = record c { sweep = Sweep.set_frequency_msb c.sweep byte; length_counter = counter }
  if counter.enabled && counter.count == 0
      then some (record c' { is_enabled = false })
      else if trigger_bit
      then trigger c'
      else some c'

pub read_nr10 : Channel1 → ℕ
read_nr10 c = Sweep.read_nr10 c.sweep

pub read_nr11 : Channel1 → ℕ
read_nr11 c = bit_or (u8 (c.reg_waveduty <<< 6)) 0x3f

pub read_nr12 : Channel1 → ℕ
read_nr12 c = Envelope.read_nrx2 c.envelope

pub read_nr14 : Channel1 → ℕ
read_nr14 c = bit_or 0xbf (of_bool c.length_counter.enabled <<< 6)

-- `Channel::is_enabled`
pub is_on : Channel1 → Bool
is_on c = c.is_enabled && c.reg_dac_enable

-- The part of `clock` that follows the reload of the timer.
pub next_sample : Channel1 → Option Channel1
next_sample c =
    if is_on c
    then (get_elem? duty_wave c.reg_waveduty >>= λ wave. some (record c {
      sample = Envelope.get_volume c.envelope * bit_and (wave >>> c.duty_cycle) 0x1;
      duty_cycle = bit_and (c.duty_cycle + 1) 0x7;
    }))
    else some (record c { sample = 0 })

pub clock : Channel1 → Option Channel1
clock c =
    if ltb 1 c.freq_timer
    then some (record c { freq_timer = c.freq_timer - 1 })
    else (period c >>= λ timer. next_sample (record c { freq_timer = timer }))

pub length_clock : Channel1 → Channel1
length_clock c =
    let (counter, expired) = LengthCounter.clock c.length_counter in
    record c { length_counter = counter; is_enabled = c.is_enabled && not expired }

pub shutdown : Channel1 → Channel1
shutdown c = record c {
  is_enabled = false;
  reg_dac_enable = false;
  duty_cycle = 0;
  reg_waveduty = 0;
  sweep = Sweep.shutdown c.sweep;
  envelope = Envelope.shutdown c.envelope;
  length_counter = LengthCounter.shutdown c.length_counter;
}
