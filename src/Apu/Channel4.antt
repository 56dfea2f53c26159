-- ===== src/Apu/Channel4.antt =====
-- src/apu/channel4.rs: noise from a shift register.
pub mod Bounds
pub mod Noise
use zenith_gb.Base.{
  ℕ, zero, suc, ◌+◌, ◌-◌, ◌*◌, ◌%◌, ◌/◌, ◌^◌, Bool, true, false, ◌&&◌, ◌||◌, not, List, [], ◌∷◌,
  Option, none, some, bit_and, bit_or, bit_xor, ◌<<<◌, ◌>>>◌, u8, u16, ◌==◌, ◌!=◌, ltb, leb,
  get_elem?, set?, replicate, checked_sub, of_bool, ◌>>=◌, if◌then◌else◌,
}
use zenith_gb.Apu.Envelope
use zenith_gb.Apu.LengthCounter

abbrev pub length_counter_init : ℕ
length_counter_init = 64

abbrev pub divisors : List ℕ
divisors = 8 ∷ 16 ∷ 32 ∷ 48 ∷ 64 ∷ 80 ∷ 96 ∷ 112 ∷ []

pub record Channel4 : Type 0 where
  pub freq_timer : ℕ
  pub length_counter : LengthCounter.LengthCounter
  pub envelope : Envelope.Envelope
  pub is_enabled : Bool
  pub lfsr : ℕ
  pub reg_dac_enable : Bool
  pub reg_clock_shift : ℕ
  pub reg_lfsr_7bit : Bool
  pub reg_divisor : ℕ
  pub sample : ℕ

pub new : (cgb : Bool) → Channel4
new cgb = record {
  freq_timer = 0;
  length_counter = LengthCounter.new length_counter_init cgb;
  envelope = Envelope.new 0 false 0;
  is_enabled = false;
  lfsr = 0;
  reg_dac_enable = false;
  reg_clock_shift = 0;
  reg_lfsr_7bit = false;
  reg_divisor = 0;
  sample = 0;
}

-- The shift drops the bits above the word's 16.
pub calc_freq : Channel4 → Option ℕ
calc_freq c =
    get_elem? divisors c.reg_divisor >>= λ divisor. some (u16 (divisor <<< c.reg_clock_shift))

pub trigger : Channel4 → Option Channel4
trigger c = do
  timer ← calc_freq c
  some (record c {
    is_enabled = c.reg_dac_enable;
    freq_timer = timer;
    lfsr = 0;
    envelope = Envelope.trigger c.envelope;
  })

pub write_nr41 : Channel4 → ℕ → Channel4
write_nr41 c byte = record c {
  length_counter =
      LengthCounter.set_count c.length_counter (length_counter_init - bit_and byte 0x3f);
}

pub write_nr42 : Channel4 → ℕ → Channel4
write_nr42 c byte =
    let dac = bit_and byte 0xf8 != 0 in
    record c {
      reg_dac_enable = dac;
      is_enabled = c.is_enabled && dac;
      envelope = Envelope.write_nrx2 c.envelope byte;
    }

pub write_nr43 : Channel4 → ℕ → Channel4
write_nr43 c byte = record c {
  reg_clock_shift = bit_and (byte >>> 4) 0xf;
  reg_lfsr_7bit = bit_and byte 0x8 != 0;
  reg_divisor = bit_and byte 0x7;
}

pub write_nr44 : Channel4 → ℕ → Option Channel4
write_nr44 c byte = do
  let trigger_bit = bit_and byte 0x80 != 0
  counter ← LengthCounter.write_nrx4 c.length_counter trigger_bit (bit_and byte 0x40 != 0)
  let c' = record c { length_counter = counter }
  if counter.enabled && counter.count == 0
      then some (record c' { is_enabled = false })
      else if trigger_bit
      then trigger c'
      else some c'

pub read_nr42 : Channel4 → ℕ
read_nr42 c = Envelope.read_nrx2 c.envelope

pub read_nr43 : Channel4 → ℕ
read_nr43 c =
    bit_or (bit_or (u8 (c.reg_clock_shift <<< 4)) (if c.reg_lfsr_7bit then 1 <<< 3 else 0))
      c.reg_divisor

pub read_nr44 : Channel4 → ℕ
read_nr44 c = bit_or 0xbf (of_bool c.length_counter.enabled <<< 6)

-- `Channel::is_enabled`
pub is_on : Channel4 → Bool
is_on c = c.is_enabled && c.reg_dac_enable

-- One step of the shift register.
pub lfsr_step : (reg_lfsr_7bit : Bool) → ℕ → ℕ
lfsr_step reg_lfsr_7bit lfsr =
    let xor_result = bit_xor (bit_xor (bit_and lfsr 0x1) (bit_and (lfsr >>> 1) 0x1)) 1 in
    let lfsr = bit_or (bit_and lfsr 0x7fff) (u16 (xor_result <<< 15)) in
    let lfsr =
      if reg_lfsr_7bit then bit_or (bit_and lfsr 0xff7f) (u16 (xor_result <<< 7)) else lfsr in
    lfsr >>> 1

-- The part of `clock` that follows the reload of the timer.
pub next_sample : Channel4 → Channel4
next_sample c =
    if is_on c
    then (let lfsr = lfsr_step c.reg_lfsr_7bit c.lfsr in
        record c { lfsr = lfsr; sample = Envelope.get_volume c.envelope * bit_and lfsr 0x1 })
    else record c { sample = 0 }

pub clock : Channel4 → Option Channel4
clock c =
    if ltb 1 c.freq_timer
    then some (record c { freq_timer = c.freq_timer - 1 })
    else (calc_freq c >>= λ timer. some (next_sample (record c { freq_timer = timer })))

pub length_clock : Channel4 → Channel4
length_clock c =
    let (counter, expired) = LengthCounter.clock c.length_counter in
    record c { length_counter = counter; is_enabled = c.is_enabled && not expired }

pub shutdown : Channel4 → Channel4
shutdown c = record c {
  is_enabled = false;
  reg_dac_enable = false;
  reg_clock_shift = 0;
  reg_divisor = 0;
  reg_lfsr_7bit = false;
  length_counter = LengthCounter.shutdown c.length_counter;
  envelope = Envelope.shutdown c.envelope;
}
