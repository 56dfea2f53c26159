-- ===== src/Apu/Channel1/Bounds.antt =====
-- The invariant of channel 1, which every operation keeps.
use zenith_gb.Base.{
  ℕ, ◌+◌, ◌-◌, ◌*◌, ◌≤◌, ◌<◌, ◌≡◌, refl, inl, inr, Bool, true, false, ◌&&◌, some, bit_and, ◌>>>◌,
  ◌==◌, ◌!=◌, ltb, if◌then◌else◌, arith, Returns, Bool-cases, get_elem?-total,
}
use zenith_gb.Base.Bits.{bit_and-mask}
use zenith_gb.Apu.LengthCounter.Expiry
use zenith_gb.Apu.Envelope
use zenith_gb.Apu.Envelope.Ramp
use zenith_gb.Apu.Sweep
use zenith_gb.Apu.Sweep.Bounds as SweepBounds
use zenith_gb.Apu.Channel2.Bounds.{sample_bit}
use zenith_gb.Apu.Channel1.{
  sweep_clock, write_nr10, disable_if, Channel1, new, duty_wave, period, trigger, write_nr11,
  write_nr12, write_nr13, write_nr14, next_sample, clock, length_clock, shutdown, is_on,
}

pub record IsValid (c : Channel1) : Type 0 where
  pub envelope_IsValid : Ramp.IsValid c.envelope
  pub counter_IsValid : Expiry.IsValid 64 c.length_counter
  pub sweep_IsValid : SweepBounds.IsValid c.sweep
  pub timer_le : c.freq_timer ≤ 8192
  pub duty_lt : c.duty_cycle < 8
  pub waveduty_lt : c.reg_waveduty < 4
  pub sample_le : c.sample ≤ 15

next_sample-IsValid : (c : Channel1) → IsValid c → Returns IsValid (next_sample c)
unfolding next_sample
next_sample-IsValid c v = elim (Bool-cases (is_on c)) [
  | inl on ↦
      let (wave, found) = get_elem?-total duty_wave c.reg_waveduty (ground (arith, v)) in
      simp (on, found)
        (
          _,
          refl,
          record {
            envelope_IsValid = v.envelope_IsValid;
            counter_IsValid = v.counter_IsValid;
            sweep_IsValid = v.sweep_IsValid;
            timer_le = v.timer_le;
            duty_lt = ground (arith, bit_and-mask 3 (c.duty_cycle + 1));
            waveduty_lt = v.waveduty_lt;
            sample_le =
                sample_bit (Envelope.get_volume c.envelope) wave c.duty_cycle
                  (Ramp.get_volume-le c.envelope v.envelope_IsValid);
          },
        )
  | inr off ↦ simp off (record c { sample = 0 }, refl, ground (arith, v))
]

period-some :
    (c : Channel1)
    → c.sweep.reg_frequency ≤ 2047
    → period c ≡ some ((2048 - c.sweep.reg_frequency) * 4)
period-some c le = let fits : ltb 2048 c.sweep.reg_frequency ≡ false = ground arith in simp fits

pub clock-IsValid : (c : Channel1) → IsValid c → Returns IsValid (clock c)
unfolding clock
clock-IsValid c v = elim (Bool-cases (ltb 1 c.freq_timer)) [
  | inl more ↦ simp more (record c { freq_timer = c.freq_timer - 1 }, refl, ground (arith, v))
  | inr last ↦
      let c' : Channel1 = record c { freq_timer = (2048 - c.sweep.reg_frequency) * 4 } in
      simp (last, period-some c v.sweep_IsValid.reg_le) (next_sample-IsValid c' (ground (arith, v)))
]

disable_if-IsValid : (c : Channel1) (off : Bool) → IsValid c → IsValid (disable_if off c)
disable_if-IsValid c off v = ground (arith, v)

trigger-IsValid : (c : Channel1) → IsValid c → Returns IsValid (trigger c)
unfolding trigger
trigger-IsValid c v = simp (period-some c v.sweep_IsValid.reg_le) (
  _,
  refl,
  ground (
    arith,
    v,
    Ramp.trigger-IsValid c.envelope v.envelope_IsValid,
    SweepBounds.trigger-IsValid c.sweep v.sweep_IsValid,
  ),
)

pub sweep_clock-IsValid : (c : Channel1) → IsValid c → Returns IsValid (sweep_clock c)
unfolding sweep_clock
sweep_clock-IsValid c v =
    let (r, clocked, v') = SweepBounds.clock-IsValid c.sweep v.sweep_IsValid in
    simp clocked (_, refl, ground (arith, v))

pub write_nr10-IsValid : (c : Channel1) (byte : ℕ) → IsValid c → IsValid (write_nr10 c byte)
unfolding write_nr10
write_nr10-IsValid c byte v =
    let v' = SweepBounds.write_nr10-IsValid c.sweep byte v.sweep_IsValid in ground (arith, v)

pub write_nr11-IsValid : (c : Channel1) (byte : ℕ) → IsValid c → IsValid (write_nr11 c byte)
unfolding write_nr11
write_nr11-IsValid c byte v = ground (
  arith,
  v,
  bit_and-mask 2 (byte >>> 6),
  Expiry.set_count-IsValid 64 c.length_counter (64 - bit_and byte 0x3f),
)

pub write_nr12-IsValid : (c : Channel1) (byte : ℕ) → IsValid c → IsValid (write_nr12 c byte)
unfolding write_nr12
write_nr12-IsValid c byte v = ground (arith, v, Ramp.write_nrx2-IsValid c.envelope byte)

pub write_nr13-IsValid :
    (c : Channel1) (byte : ℕ) → byte < 256 → IsValid c → IsValid (write_nr13 c byte)
unfolding write_nr13
write_nr13-IsValid c byte lt v =
    ground (arith, v, SweepBounds.set_frequency_lsb-IsValid c.sweep byte)

write_end-IsValid :
    (c : Channel1) (silent trigger_bit : Bool)
    → IsValid c
    → Returns IsValid (
        if silent
        then some (record c { is_enabled = false })
        else if trigger_bit
        then trigger c
        else some c)
write_end-IsValid c true trigger_bit v = (record c { is_enabled = false }, refl, ground (arith, v))
write_end-IsValid c false true v = trigger-IsValid c v
write_end-IsValid c false false v = (c, refl, v)

pub write_nr14-IsValid : (c : Channel1) (byte : ℕ) → IsValid c → Returns IsValid (write_nr14 c byte)
unfolding write_nr14
write_nr14-IsValid c byte v =
    let trigger_bit : Bool = bit_and byte 0x80 != 0 in
    let (counter, written, props) =
      Expiry.write_nrx4-IsValid 64 c.length_counter trigger_bit (bit_and byte 0x40 != 0)
        v.counter_IsValid in
    let c' : Channel1 = record c {
      sweep = Sweep.set_frequency_msb c.sweep byte;
      length_counter = counter;
    } in
    let v' : IsValid c' =
      ground (arith, v, props.0, SweepBounds.set_frequency_msb-IsValid c.sweep byte) in
    simp written (write_end-IsValid c' (counter.enabled && counter.count == 0) trigger_bit v')

pub length_clock-IsValid : (c : Channel1) → IsValid c → IsValid (length_clock c)
unfolding length_clock
length_clock-IsValid c v =
    ground (arith, v, Expiry.clock-IsValid 64 c.length_counter v.counter_IsValid)

pub shutdown-IsValid : (c : Channel1) → IsValid c → IsValid (shutdown c)
unfolding shutdown
shutdown-IsValid c v = ground (
  arith,
  v,
  Ramp.shutdown-IsValid c.envelope,
  SweepBounds.shutdown-IsValid c.sweep,
  Expiry.shutdown-IsValid 64 c.length_counter v.counter_IsValid,
)

pub new-IsValid : (cgb : Bool) → IsValid (new cgb)
unfolding new
new-IsValid cgb =
    ground (arith, Ramp.new-IsValid 0xf false 3, SweepBounds.new-IsValid, Expiry.new-IsValid 64 cgb)

pub is_on-shutdown : (c : Channel1) → is_on (shutdown c) ≡ false
unfolding is_on shutdown
is_on-shutdown c = refl
