-- ===== src/Apu/Channel2/Bounds.antt =====
-- The invariant of channel 2, which every operation keeps.
use zenith_gb.Base.{
  ℕ, ◌+◌, ◌-◌, ◌*◌, ◌%◌, ◌≤◌, ◌<◌, ◌≡◌, refl, inl, inr, Bool, true, false, ◌&&◌, some, bit_and,
  bit_or, ◌<<<◌, ◌>>>◌, ◌==◌, ◌!=◌, ltb, if◌then◌else◌, arith, Returns, Bool-cases, get_elem?-total,
}
use zenith_gb.Base.Bits.{bit_and-mask, bit_and-le, bit_or-fields, bit_or-lt_two_pow}
use zenith_gb.Apu.LengthCounter.Expiry
use zenith_gb.Apu.Envelope
use zenith_gb.Apu.Envelope.Ramp
use zenith_gb.Apu.Channel2.{
  Channel2, new, duty_wave, period, trigger, write_nr21, write_nr22, write_nr23, write_nr24,
  next_sample, clock, length_clock, shutdown, is_on,
}

pub record IsValid (c : Channel2) : Type 0 where
  pub envelope_IsValid : Ramp.IsValid c.envelope
  pub counter_IsValid : Expiry.IsValid 64 c.length_counter
  pub frequency_le : c.reg_frequency ≤ 2047
  pub timer_le : c.freq_timer ≤ 8192
  pub duty_lt : c.duty_cycle < 8
  pub waveduty_lt : c.reg_waveduty < 4
  pub sample_le : c.sample ≤ 15

-- The frequency that NRx4 completes.
pub frequency_bound :
    (byte frequency : ℕ) → bit_or (bit_and byte 0x7 <<< 8) (bit_and frequency 0xff) ≤ 2047
frequency_bound byte frequency = ground (
  arith,
  bit_and-mask 3 byte,
  bit_and-mask 8 frequency,
  bit_or-fields 8 (byte % 8) (frequency % 256),
)

pub sample_bit : (volume wave duty : ℕ) → volume ≤ 15 → volume * bit_and (wave >>> duty) 0x1 ≤ 15
sample_bit volume wave duty le =
    let bit : bit_and (wave >>> duty) 1 ≡ (wave >>> duty) % 2 = bit_and-mask 1 (wave >>> duty) in
    rw bit
      (elim (Bool-cases ((wave >>> duty) % 2 == 0)) [ inl z ↦ ground arith | inr o ↦ ground arith ])

next_sample-IsValid : (c : Channel2) → IsValid c → Returns IsValid (next_sample c)
unfolding next_sample
next_sample-IsValid c v = elim (Bool-cases (is_on c)) [
  | inl on ↦
      let (wave, found) = get_elem?-total duty_wave c.reg_waveduty (ground (arith, v)) in
      simp (on, found)
        (
          _,
          refl,
          record {
            envelope_IsValid = v.envelope_IsValid;
            counter_IsValid = v.counter_IsValid;
            frequency_le = v.frequency_le;
            timer_le = v.timer_le;
            duty_lt = ground (arith, bit_and-mask 3 (c.duty_cycle + 1));
            waveduty_lt = v.waveduty_lt;
            sample_le =
                sample_bit (Envelope.get_volume c.envelope) wave c.duty_cycle
                  (Ramp.get_volume-le c.envelope v.envelope_IsValid);
          },
        )
  | inr off ↦ simp off (record c { sample = 0 }, refl, ground (arith, v))
]

pub period-some :
    (c : Channel2) → c.reg_frequency ≤ 2047 → period c ≡ some ((2048 - c.reg_frequency) * 4)
period-some c le = let fits : ltb 2048 c.reg_frequency ≡ false = ground arith in simp fits

pub clock-IsValid : (c : Channel2) → IsValid c → Returns IsValid (clock c)
unfolding clock
clock-IsValid c v = elim (Bool-cases (ltb 1 c.freq_timer)) [
  | inl more ↦ simp more (record c { freq_timer = c.freq_timer - 1 }, refl, ground (arith, v))
  | inr last ↦
      let c' : Channel2 = record c { freq_timer = (2048 - c.reg_frequency) * 4 } in
      simp (last, period-some c v.frequency_le) (next_sample-IsValid c' (ground (arith, v)))
]

trigger-IsValid : (c : Channel2) → IsValid c → Returns IsValid (trigger c)
unfolding trigger
trigger-IsValid c v =
    simp (period-some c v.frequency_le)
      (_, refl, ground (arith, v, Ramp.trigger-IsValid c.envelope v.envelope_IsValid))

pub write_nr21-IsValid : (c : Channel2) (byte : ℕ) → IsValid c → IsValid (write_nr21 c byte)
unfolding write_nr21
write_nr21-IsValid c byte v = ground (
  arith,
  v,
  bit_and-mask 2 (byte >>> 6),
  Expiry.set_count-IsValid 64 c.length_counter (64 - bit_and byte 0x3f),
)

pub write_nr22-IsValid : (c : Channel2) (byte : ℕ) → IsValid c → IsValid (write_nr22 c byte)
unfolding write_nr22
write_nr22-IsValid c byte v = ground (arith, v, Ramp.write_nrx2-IsValid c.envelope byte)

pub write_nr23-IsValid :
    (c : Channel2) (byte : ℕ) → byte < 256 → IsValid c → IsValid (write_nr23 c byte)
unfolding write_nr23
write_nr23-IsValid c byte lt v = ground (
  arith,
  v,
  bit_and-le c.reg_frequency 0x700,
  bit_or-lt_two_pow 11 (bit_and c.reg_frequency 0x700) byte,
)

write_end-IsValid :
    (c : Channel2) (silent trigger_bit : Bool)
    → IsValid c
    → Returns IsValid (
        if silent
        then some (record c { is_enabled = false })
        else if trigger_bit
        then trigger c
        else some c)
write_end-IsValid c true trigger_bit v = (record c { is_enabled = false }, refl, ground (arith, v))
write_end-IsValid c false true v = trigger-IsValid c v
write_end-IsValid c false false v = (c, refl, v)

pub write_nr24-IsValid : (c : Channel2) (byte : ℕ) → IsValid c → Returns IsValid (write_nr24 c byte)
unfolding write_nr24
write_nr24-IsValid c byte v =
    let trigger_bit : Bool = bit_and byte 0x80 != 0 in
    let (counter, written, props) =
      Expiry.write_nrx4-IsValid 64 c.length_counter trigger_bit (bit_and byte 0x40 != 0)
        v.counter_IsValid in
    let frequency : ℕ = bit_or (bit_and byte 0x7 <<< 8) (bit_and c.reg_frequency 0xff) in
    let frequency_le : frequency ≤ 2047 = frequency_bound byte c.reg_frequency in
    let c' : Channel2 = record c { reg_frequency = frequency; length_counter = counter } in
    let v' : IsValid c' = ground (arith, v, props.0) in
    simp written (write_end-IsValid c' (counter.enabled && counter.count == 0) trigger_bit v')

pub length_clock-IsValid : (c : Channel2) → IsValid c → IsValid (length_clock c)
unfolding length_clock
length_clock-IsValid c v =
    ground (arith, v, Expiry.clock-IsValid 64 c.length_counter v.counter_IsValid)

pub shutdown-IsValid : (c : Channel2) → IsValid c → IsValid (shutdown c)
unfolding shutdown
shutdown-IsValid c v = ground (
  arith,
  v,
  Ramp.shutdown-IsValid c.envelope,
  Expiry.shutdown-IsValid 64 c.length_counter v.counter_IsValid,
)

pub new-IsValid : (cgb : Bool) → IsValid (new cgb)
unfolding new
new-IsValid cgb = ground (arith, Ramp.new-IsValid 0 false 0, Expiry.new-IsValid 64 cgb)

pub is_on-shutdown : (c : Channel2) → is_on (shutdown c) ≡ false
unfolding is_on shutdown
is_on-shutdown c = refl
