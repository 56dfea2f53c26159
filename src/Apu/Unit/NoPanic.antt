-- ===== src/Apu/Unit/NoPanic.antt =====
-- No sequence of clocks and register writes makes the sound unit panic.
use zenith_gb.Base.{
  ℕ, zero, suc, ◌+◌, ◌-◌, ◌≤◌, ◌<◌, ◌≡◌, refl, inl, inr, Bool, false, [], bit_and, ◌==◌, ◌!=◌, ltb,
  arith, Returns, Bool-cases,
}
use zenith_gb.Base.Bits.{bit_and-mask}
use zenith_gb.Apu.LengthCounter.Expiry
use zenith_gb.Apu.Envelope.Ramp
use zenith_gb.Apu.Channel1.Bounds as Bounds1
use zenith_gb.Apu.Channel2.Bounds as Bounds2
use zenith_gb.Apu.Channel3.Bounds as Bounds3
use zenith_gb.Apu.Channel4.Bounds as Bounds4
use zenith_gb.Apu.Unit.{
  Apu, new, sequence, run_step, set_step, clock_lengths, clock_envelopes, clock_sweep, tick, ticks,
  clock,
}

pub record IsValid (a : Apu) : Type 0 where
  pub channel1_IsValid : Bounds1.IsValid a.channel1
  pub channel2_IsValid : Bounds2.IsValid a.channel2
  pub channel3_IsValid : Bounds3.IsValid a.channel3
  pub channel4_IsValid : Bounds4.IsValid a.channel4
  pub sample_pos : 1 ≤ a.sample_counter
  pub sequencer_pos : 1 ≤ a.frame_sequencer
  pub step_lt : a.frame_sequencer_step < 8
  pub right_le : a.right_vol ≤ 7
  pub left_le : a.left_vol ≤ 7

clock_lengths-IsValid : (a : Apu) → IsValid a → IsValid (clock_lengths a)
unfolding clock_lengths
clock_lengths-IsValid a v = ground (
  arith,
  v,
  Bounds1.length_clock-IsValid a.channel1,
  Bounds2.length_clock-IsValid a.channel2,
  Bounds3.length_clock-IsValid a.channel3,
  Bounds4.length_clock-IsValid a.channel4,
)

clock_sweep-IsValid : (a : Apu) → IsValid a → Returns IsValid (clock_sweep a)
unfolding clock_sweep
clock_sweep-IsValid a v =
    let (c, e, v') = Bounds1.sweep_clock-IsValid a.channel1 v.channel1_IsValid in
    simp e (record a { channel1 = c }, refl, ground (arith, v))

clock_envelopes-IsValid : (a : Apu) → IsValid a → Returns IsValid (clock_envelopes a)
unfolding clock_envelopes
clock_envelopes-IsValid a v =
    let (c1, e1, v1) = Ramp.clock-IsValid a.channel1.envelope v.channel1_IsValid.envelope_IsValid in
    let (c2, e2, v2) = Ramp.clock-IsValid a.channel2.envelope v.channel2_IsValid.envelope_IsValid in
    let (c4, e4, v4) = Ramp.clock-IsValid a.channel4.envelope v.channel4_IsValid.envelope_IsValid in
    simp (e1, e2, e4) (_, refl, ground (arith, v))

run_step-IsValid : (step : ℕ) (a : Apu) → step < 8 → IsValid a → Returns IsValid (run_step step a)
unfolding run_step
run_step-IsValid zero a lt v = (clock_lengths a, refl, clock_lengths-IsValid a v)
run_step-IsValid (suc zero) a lt v = (a, refl, v)
run_step-IsValid (suc (suc zero)) a lt v =
    clock_sweep-IsValid (clock_lengths a) (clock_lengths-IsValid a v)
run_step-IsValid (suc (suc (suc zero))) a lt v = (a, refl, v)
run_step-IsValid (suc (suc (suc (suc zero)))) a lt v =
    (clock_lengths a, refl, clock_lengths-IsValid a v)
run_step-IsValid (suc (suc (suc (suc (suc zero))))) a lt v = (a, refl, v)
run_step-IsValid (suc (suc (suc (suc (suc (suc zero)))))) a lt v =
    clock_sweep-IsValid (clock_lengths a) (clock_lengths-IsValid a v)
run_step-IsValid (suc (suc (suc (suc (suc (suc (suc zero))))))) a lt v = clock_envelopes-IsValid a v
run_step-IsValid (suc (suc (suc (suc (suc (suc (suc (suc n)))))))) a lt v = absurd (omega arith)

set_step-IsValid : (step : ℕ) (a : Apu) → step < 8 → IsValid a → IsValid (set_step step a)
unfolding set_step
set_step-IsValid step a lt v = ground (
  arith,
  v,
  Expiry.update-IsValid 64 a.channel1.length_counter step,
  Expiry.update-IsValid 64 a.channel2.length_counter step,
  Expiry.update-IsValid 256 a.channel3.length_counter step,
  Expiry.update-IsValid 64 a.channel4.length_counter step,
)

pub sequence-IsValid : (a : Apu) → IsValid a → Returns IsValid (sequence a)
unfolding sequence
sequence-IsValid a v =
    let fits : ltb a.frame_sequencer 1 ≡ false = ground (arith, v) in
    simp fits (elim (Bool-cases (a.frame_sequencer - 1 != 0)) [
      | inl more ↦
          simp more (record a { frame_sequencer = a.frame_sequencer - 1 }, refl, ground (arith, v))
      | inr last ↦
          let a' : Apu = record a { frame_sequencer = 2048 } in
          let (b, e, v') =
            run_step-IsValid a.frame_sequencer_step a' v.step_lt (ground (arith, v)) in
          let step : ℕ = bit_and (b.frame_sequencer_step + 1) 0x7 in
          simp (last, e)
            (
              _,
              refl,
              set_step-IsValid step b (ground (arith, bit_and-mask 3 (b.frame_sequencer_step + 1)))
                  v',
            )
    ])

tick-IsValid : (a : Apu) → IsValid a → Returns (λ r. IsValid r.0) (tick a)
unfolding tick
tick-IsValid a v =
    let (c1, e1, v1) = Bounds1.clock-IsValid a.channel1 v.channel1_IsValid in
    let (c2, e2, v2) = Bounds2.clock-IsValid a.channel2 v.channel2_IsValid in
    let (c3, e3, v3) = Bounds3.clock-IsValid a.channel3 v.channel3_IsValid in
    let (c4, e4, v4) = Bounds4.clock-IsValid a.channel4 v.channel4_IsValid in
    let fits : ltb a.sample_counter 1 ≡ false = ground (arith, v) in
    simp (e1, e2, e3, e4, fits)
      (
        _,
        refl,
        elim (Bool-cases (a.sample_counter - 1 == 0)) [
          | inl out ↦ simp out (ground (arith, v))
          | inr quiet ↦ simp quiet (ground (arith, v))
        ],
      )

ticks-IsValid : (n : ℕ) (a : Apu) → IsValid a → Returns (λ r. IsValid r.0) (ticks n a)
unfolding ticks
ticks-IsValid zero a v = ((a, []), refl, v)
ticks-IsValid (suc n) a v =
    let (r, e, v') = tick-IsValid a v in
    let (r', e', v'') = ticks-IsValid n r.0 v' in simp (e, e') (_, refl, v'')

pub clock-IsValid : (a : Apu) → IsValid a → Returns (λ r. IsValid r.0) (clock a)
unfolding clock
clock-IsValid a v = let (b, e, v') = sequence-IsValid a v in simp e (ticks-IsValid 4 b v')

pub new-IsValid : (cgb : Bool) → IsValid (new cgb)
unfolding new
new-IsValid cgb = ground (
  arith,
  Bounds1.new-IsValid cgb,
  Bounds2.new-IsValid cgb,
  Bounds3.new-IsValid cgb,
  Bounds4.new-IsValid cgb,
)
