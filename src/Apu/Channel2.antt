-- ===== src/Apu/Channel2.antt =====
-- src/apu/channel2.rs: a square wave.
pub mod Bounds
pub mod Wave
use zenith_gb.Base.{
  ℕ, zero, suc, ◌+◌, ◌-◌, ◌*◌, ◌%◌, ◌/◌, ◌^◌, Bool, true, false, ◌&&◌, ◌||◌, not, List, [], ◌∷◌,
  Option, none, some, bit_and, bit_or, bit_xor, ◌<<<◌, ◌>>>◌, u8, u16, ◌==◌, ◌!=◌, ltb, leb,
  get_elem?, set?, replicate, checked_sub, of_bool, ◌>>=◌, if◌then◌else◌,
}
use zenith_gb.Apu.Envelope
use zenith_gb.Apu.LengthCounter

abbrev pub length_counter_init : ℕ
length_counter_init = 64

abbrev pub duty_wave : List ℕ
duty_wave = 0b00000001 ∷ 0b10000001 ∷ 0b10000111 ∷ 0b01111110 ∷ []

pub record Channel2 : Type 0 where
  pub freq_timer : ℕ
  pub reg_frequency : ℕ
  pub envelope : Envelope.Envelope
  pub length_counter : LengthCounter.LengthCounter
  pub is_enabled : Bool
  pub duty_cycle : ℕ
  pub reg_waveduty : ℕ
  pub reg_dac_enable : Bool
  pub sample : ℕ

pub new : (cgb : Bool) → Channel2
new cgb = record {
  freq_timer = 0;
  reg_frequency = 0;
  envelope = Envelope.new 0 false 0;
  length_counter = LengthCounter.new length_counter_init cgb;
  is_enabled = false;
  duty_cycle = 0;
  reg_waveduty = 0;
  reg_dac_enable = false;
  sample = 0;
}

-- The period that the timer is loaded with.
abbrev pub period : Channel2 → Option ℕ
period c = checked_sub 2048 c.reg_frequency >>= λ p. some (p * 4)

pub trigger : Channel2 → Option Channel2
trigger c = do
  timer ← period c
  some (record c {
    is_enabled = c.reg_dac_enable;
    freq_timer = timer;
    envelope = Envelope.trigger c.envelope;
  })

pub write_nr21 : Channel2 → ℕ → Channel2
write_nr21 c byte = record c {
  length_counter =
      LengthCounter.set_count c.length_counter (length_counter_init - bit_and byte 0x3f);
  reg_waveduty = bit_and (byte >>> 6) 0x3;
}

pub write_nr22 : Channel2 → ℕ → Channel2
write_nr22 c byte =
    let dac = bit_and byte 0xf8 != 0 in
    record c {
      reg_dac_enable = dac;
      is_enabled = c.is_enabled && dac;
      envelope = Envelope.write_nrx2 c.envelope byte;
    }

pub write_nr23 : Channel2 → ℕ → Channel2
write_nr23 c byte = record c { reg_frequency = bit_or (bit_and c.reg_frequency 0x700) byte }

pub write_nr24 : Channel2 → ℕ → Option Channel2
write_nr24 c byte = do
  let trigger_bit = bit_and byte 0x80 != 0
  counter ← LengthCounter.write_nrx4 c.length_counter trigger_bit (bit_and byte 0x40 != 0)
  let c' = record c {
    reg_frequency = bit_or (bit_and byte 0x7 <<< 8) (bit_and c.reg_frequency 0xff);
    length_counter = counter;
  }
  if counter.enabled && counter.count == 0
      then some (record c' { is_enabled = false })
      else if trigger_bit
      then trigger c'
      else some c'

pub read_nr21 : Channel2 → ℕ
read_nr21 c = bit_or (u8 (c.reg_waveduty <<< 6)) 0x3f

pub read_nr22 : Channel2 → ℕ
read_nr22 c = Envelope.read_nrx2 c.envelope

pub read_nr24 : Channel2 → ℕ
read_nr24 c = bit_or 0xbf (of_bool c.length_counter.enabled <<< 6)

-- `Channel::is_enabled`
unfoldable pub is_on : Channel2 → Bool
is_on c = c.is_enabled && c.reg_dac_enable

-- The part of `clock` that follows the reload of the timer.
pub next_sample : Channel2 → Option Channel2
next_sample c =
    if is_on c
    then (get_elem? duty_wave c.reg_waveduty >>= λ wave. some (record c {
      sample = Envelope.get_volume c.envelope * bit_and (wave >>> c.duty_cycle) 0x1;
      duty_cycle = bit_and (c.duty_cycle + 1) 0x7;
    }))
    else some (record c { sample = 0 })

pub clock : Channel2 → Option Channel2
clock c =
    if ltb 1 c.freq_timer
    then some (record c { freq_timer = c.freq_timer - 1 })
    else (period c >>= λ timer. next_sample (record c { freq_timer = timer }))

pub length_clock : Channel2 → Channel2
length_clock c =
    let (counter, expired) = LengthCounter.clock c.length_counter in
    record c { length_counter = counter; is_enabled = c.is_enabled && not expired }

pub shutdown : Channel2 → Channel2
shutdown c = record c {
  is_enabled = false;
  reg_dac_enable = false;
  duty_cycle = 0;
  reg_waveduty = 0;
  reg_frequency = 0;
  envelope = Envelope.shutdown c.envelope;
  length_counter = LengthCounter.shutdown c.length_counter;
}
