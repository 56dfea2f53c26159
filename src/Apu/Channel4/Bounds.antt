-- ===== src/Apu/Channel4/Bounds.antt =====
-- The invariant of channel 4, which every operation keeps.
use zenith_gb.Base.{
  ℕ, ◌-◌, ◌%◌, ◌≤◌, ◌<◌, ◌≡◌, refl, inl, inr, Bool, true, false, ◌&&◌, some, bit_and, bit_or,
  bit_xor, u16, ◌<<<◌, ◌>>>◌, ◌==◌, ◌!=◌, ltb, if◌then◌else◌, arith, Returns, Bool-cases,
  get_elem?-total,
}
use zenith_gb.Base.Bits.{bit_and-mask, bit_and-le, bit_or-lt_two_pow}
use zenith_gb.Apu.LengthCounter.Expiry
use zenith_gb.Apu.Envelope
use zenith_gb.Apu.Envelope.Ramp
use zenith_gb.Apu.Channel2.Bounds.{sample_bit}
use zenith_gb.Apu.Channel4.{
  Channel4, new, divisors, calc_freq, lfsr_step, trigger, write_nr41, write_nr42, write_nr43,
  write_nr44, next_sample, clock, length_clock, shutdown, is_on,
}

pub record IsValid (c : Channel4) : Type 0 where
  pub envelope_IsValid : Ramp.IsValid c.envelope
  pub counter_IsValid : Expiry.IsValid 64 c.length_counter
  pub divisor_lt : c.reg_divisor < 8
  pub shift_lt : c.reg_clock_shift < 16
  pub lfsr_lt : c.lfsr < 32768
  pub sample_le : c.sample ≤ 15

lfsr_step-lt : (mode : Bool) (lfsr : ℕ) → lfsr_step mode lfsr < 32768
unfolding lfsr_step
lfsr_step-lt mode lfsr =
    let x : ℕ = bit_xor (bit_xor (bit_and lfsr 0x1) (bit_and (lfsr >>> 1) 0x1)) 1 in
    let low : ℕ = bit_and lfsr 0x7fff in
    let low_lem : low ≡ lfsr % 32768 = bit_and-mask 15 lfsr in
    let fed : ℕ = bit_or low (u16 (x <<< 15)) in
    let fed_lt : fed < 65536 =
      bit_or-lt_two_pow 16 low (u16 (x <<< 15)) (omega arith) (omega arith) in
    let both_lt : bit_or (bit_and fed 0xff7f) (u16 (x <<< 7)) < 65536 =
      bit_or-lt_two_pow 16 (bit_and fed 0xff7f) (u16 (x <<< 7))
        (omega (arith, bit_and-le fed 0xff7f)) (omega arith) in
    ground arith

next_sample-IsValid : (c : Channel4) → IsValid c → IsValid (next_sample c)
unfolding next_sample
next_sample-IsValid c v = elim (Bool-cases (is_on c)) [
  | inl on ↦
      let lfsr : ℕ = lfsr_step c.reg_lfsr_7bit c.lfsr in
      let lt = lfsr_step-lt c.reg_lfsr_7bit c.lfsr in
      let le =
        sample_bit (Envelope.get_volume c.envelope) lfsr 0
          (Ramp.get_volume-le c.envelope v.envelope_IsValid) in
      simp on (ground (arith, v))
  | inr off ↦ simp off (ground (arith, v))
]

calc_freq-some : (c : Channel4) → c.reg_divisor < 8 → (timer : ℕ) × (calc_freq c ≡ some timer)
unfolding calc_freq
calc_freq-some c lt =
    let (divisor, found) = get_elem?-total divisors c.reg_divisor (ground arith) in
    simp found (_, refl)

pub clock-IsValid : (c : Channel4) → IsValid c → Returns IsValid (clock c)
unfolding clock
clock-IsValid c v = elim (Bool-cases (ltb 1 c.freq_timer)) [
  | inl more ↦ simp more (record c { freq_timer = c.freq_timer - 1 }, refl, ground (arith, v))
  | inr last ↦
      let (timer, e) = calc_freq-some c v.divisor_lt in
      let c' : Channel4 = record c { freq_timer = timer } in
      simp (last, e) (next_sample c', refl, next_sample-IsValid c' (ground (arith, v)))
]

trigger-IsValid : (c : Channel4) → IsValid c → Returns IsValid (trigger c)
unfolding trigger
trigger-IsValid c v =
    let (timer, e) = calc_freq-some c v.divisor_lt in
    simp e (_, refl, ground (arith, v, Ramp.trigger-IsValid c.envelope v.envelope_IsValid))

pub write_nr41-IsValid : (c : Channel4) (byte : ℕ) → IsValid c → IsValid (write_nr41 c byte)
unfolding write_nr41
write_nr41-IsValid c byte v =
    ground (arith, v, Expiry.set_count-IsValid 64 c.length_counter (64 - bit_and byte 0x3f))

pub write_nr42-IsValid : (c : Channel4) (byte : ℕ) → IsValid c → IsValid (write_nr42 c byte)
unfolding write_nr42
write_nr42-IsValid c byte v = ground (arith, v, Ramp.write_nrx2-IsValid c.envelope byte)

pub write_nr43-IsValid : (c : Channel4) (byte : ℕ) → IsValid c → IsValid (write_nr43 c byte)
unfolding write_nr43
write_nr43-IsValid c byte v = ground (arith, v, bit_and-mask 4 (byte >>> 4), bit_and-mask 3 byte)

write_end-IsValid :
    (c : Channel4) (silent trigger_bit : Bool)
    → IsValid c
    → Returns IsValid (
        if silent
        then some (record c { is_enabled = false })
        else if trigger_bit
        then trigger c
        else some c)
write_end-IsValid c true trigger_bit v = (record c { is_enabled = false }, refl, ground (arith, v))
write_end-IsValid c false true v = trigger-IsValid c v
write_end-IsValid c false false v = (c, refl, v)

pub write_nr44-IsValid : (c : Channel4) (byte : ℕ) → IsValid c → Returns IsValid (write_nr44 c byte)
unfolding write_nr44
write_nr44-IsValid c byte v =
    let trigger_bit : Bool = bit_and byte 0x80 != 0 in
    let (counter, written, props) =
      Expiry.write_nrx4-IsValid 64 c.length_counter trigger_bit (bit_and byte 0x40 != 0)
        v.counter_IsValid in
    let c' : Channel4 = record c { length_counter = counter } in
    let v' : IsValid c' = ground (arith, v, props.0) in
    simp written (write_end-IsValid c' (counter.enabled && counter.count == 0) trigger_bit v')

pub length_clock-IsValid : (c : Channel4) → IsValid c → IsValid (length_clock c)
unfolding length_clock
length_clock-IsValid c v =
    ground (arith, v, Expiry.clock-IsValid 64 c.length_counter v.counter_IsValid)

pub shutdown-IsValid : (c : Channel4) → IsValid c → IsValid (shutdown c)
unfolding shutdown
shutdown-IsValid c v = ground (
  arith,
  v,
  Ramp.shutdown-IsValid c.envelope,
  Expiry.shutdown-IsValid 64 c.length_counter v.counter_IsValid,
)

pub new-IsValid : (cgb : Bool) → IsValid (new cgb)
unfolding new
new-IsValid cgb = ground (arith, Ramp.new-IsValid 0 false 0, Expiry.new-IsValid 64 cgb)

pub is_on-shutdown : (c : Channel4) → is_on (shutdown c) ≡ false
unfolding is_on shutdown
is_on-shutdown c = refl
