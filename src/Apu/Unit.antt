-- ===== src/Apu/Unit.antt =====
-- src/apu/apu.rs: the four channels, the frame sequencer that clocks them, and the mixer.
--
-- What a clock gives to the audio output is its value: the pairs of a left and a right sample.
-- The buffer that collects them, its conversion and the channel to the sound thread are not
-- modelled, nor is the recording of a file. The mixer's floats are multiples of 1/8 below 64,
-- which they hold exactly, so the truncated sum is a division of natural numbers.
pub mod Registers
pub mod Map
pub mod NoPanic
mod Tests
use zenith_gb.Base.{
  ℕ, zero, suc, ◌+◌, ◌-◌, ◌*◌, ◌%◌, ◌/◌, Bool, true, false, List, [], ◌∷◌, ◌++◌, Option, none, some,
  bit_and, ◌==◌, ◌!=◌, checked_sub, ◌>>=◌, ◌||◌, if◌then◌else◌,
}
use zenith_gb.Apu.LengthCounter
use zenith_gb.Apu.Envelope
use zenith_gb.Apu.Channel1
use zenith_gb.Apu.Channel2
use zenith_gb.Apu.Channel3
use zenith_gb.Apu.Channel4

-- At the default frame rate `T_CYCLES_PER_FRAME` is 4194304.
abbrev pub frame_sequencer_start : ℕ
frame_sequencer_start = 4194304 / 2048

abbrev pub sample_counter_start : ℕ
sample_counter_start = 4194304 / 44100

-- A `[bool; 4]`.
pub record Pan : Type 0 where
  pub pan1 : Bool
  pub pan2 : Bool
  pub pan3 : Bool
  pub pan4 : Bool

-- `cgb` is `ctx.cgb`.
pub record Apu : Type 0 where
  pub channel1 : Channel1.Channel1
  pub channel2 : Channel2.Channel2
  pub channel3 : Channel3.Channel3
  pub channel4 : Channel4.Channel4
  pub sample_counter : ℕ
  pub frame_sequencer : ℕ
  pub frame_sequencer_step : ℕ
  pub audio_enabled : Bool
  pub right_pan : Pan
  pub right_vol : ℕ
  pub left_pan : Pan
  pub left_vol : ℕ
  pub left_vin : Bool
  pub right_vin : Bool
  pub cgb : Bool

pub new : (cgb : Bool) → Apu
new cgb = record {
  channel1 = Channel1.new cgb;
  channel2 = Channel2.new cgb;
  channel3 = Channel3.new cgb;
  channel4 = Channel4.new cgb;
  sample_counter = sample_counter_start;
  frame_sequencer = frame_sequencer_start;
  frame_sequencer_step = 0;
  audio_enabled = true;
  right_pan = record { pan1 = true; pan2 = true; pan3 = false; pan4 = false };
  right_vol = 7;
  left_pan = record { pan1 = true; pan2 = true; pan3 = true; pan4 = true };
  left_vol = 7;
  left_vin = false;
  right_vin = false;
  cgb = cgb;
}

-- `length_clock` of every channel.
pub clock_lengths : Apu → Apu
clock_lengths a = record a {
  channel1 = Channel1.length_clock a.channel1;
  channel2 = Channel2.length_clock a.channel2;
  channel3 = Channel3.length_clock a.channel3;
  channel4 = Channel4.length_clock a.channel4;
}

-- `clock` of every envelope.
pub clock_envelopes : Apu → Option Apu
clock_envelopes a = do
  e1 ← Envelope.clock a.channel1.envelope
  e2 ← Envelope.clock a.channel2.envelope
  e4 ← Envelope.clock a.channel4.envelope
  some (record a {
    channel1 = record a.channel1 { envelope = e1 };
    channel2 = record a.channel2 { envelope = e2 };
    channel4 = record a.channel4 { envelope = e4 };
  })

pub clock_sweep : Apu → Option Apu
clock_sweep a = Channel1.sweep_clock a.channel1 >>= λ c. some (record a { channel1 = c })

-- The `match` on the step of the sequencer.
pub run_step : ℕ → Apu → Option Apu
run_step zero a = some (clock_lengths a)
run_step (suc zero) a = some a
run_step (suc (suc zero)) a = clock_sweep (clock_lengths a)
run_step (suc (suc (suc zero))) a = some a
run_step (suc (suc (suc (suc zero)))) a = some (clock_lengths a)
run_step (suc (suc (suc (suc (suc zero))))) a = some a
run_step (suc (suc (suc (suc (suc (suc zero)))))) a = clock_sweep (clock_lengths a)
run_step (suc (suc (suc (suc (suc (suc (suc zero))))))) a = clock_envelopes a
run_step _ a = none

-- The step is told to every length counter.
pub set_step : ℕ → Apu → Apu
set_step step a = record a {
  frame_sequencer_step = step;
  channel1 = record a.channel1 {
    length_counter = LengthCounter.update_frame_sequencer_step a.channel1.length_counter step;
  };
  channel2 = record a.channel2 {
    length_counter = LengthCounter.update_frame_sequencer_step a.channel2.length_counter step;
  };
  channel3 = record a.channel3 {
    length_counter = LengthCounter.update_frame_sequencer_step a.channel3.length_counter step;
  };
  channel4 = record a.channel4 {
    length_counter = LengthCounter.update_frame_sequencer_step a.channel4.length_counter step;
  };
}

-- `frame_sequencer`
pub sequence : Apu → Option Apu
sequence a =
    (checked_sub a.frame_sequencer 1 >>= λ left.
    if left != 0
    then some (record a { frame_sequencer = left })
    else (run_step a.frame_sequencer_step (record a { frame_sequencer = frame_sequencer_start })
        >>= λ a'. some (set_step (bit_and (a'.frame_sequencer_step + 1) 0x7) a')))

-- The share of a channel in a sum.
abbrev pub panned : Bool → ℕ → ℕ
panned pan sample = if pan then sample else 0

-- The sum for a side: `get_volume_scale` is `(vol + 1) / 8`.
pub mix : Apu → Pan → (vol : ℕ) → ℕ
mix a pan vol =
    (panned pan.pan1 a.channel1.sample
      + panned pan.pan2 a.channel2.sample
      + panned pan.pan3 a.channel3.sample
      + panned pan.pan4 a.channel4.sample)
    * (vol + 1)
    / 8

pub sample_audio : Apu → ℕ × ℕ
sample_audio a = (mix a a.left_pan a.left_vol, mix a a.right_pan a.right_vol)

-- One of the four passes of `clock`.
pub tick : Apu → Option (Apu × List (ℕ × ℕ))
tick a = do
  c1 ← Channel1.clock a.channel1
  c2 ← Channel2.clock a.channel2
  c3 ← Channel3.clock a.channel3
  c4 ← Channel4.clock a.channel4
  left ← checked_sub a.sample_counter 1
  let a' = record a { channel1 = c1; channel2 = c2; channel3 = c3; channel4 = c4 }
  some (
      if left == 0
      then (record a' { sample_counter = sample_counter_start }, sample_audio a' ∷ [])
      else (record a' { sample_counter = left }, []))

unfoldable pub ticks : ℕ → Apu → Option (Apu × List (ℕ × ℕ))
ticks zero a = some (a, [])
ticks (suc n) a = do (a', out) ← tick a; (a'', out') ← ticks n a'; some (a'', out ++ out')

pub clock : Apu → Option (Apu × List (ℕ × ℕ))
clock a = sequence a >>= ticks 4
