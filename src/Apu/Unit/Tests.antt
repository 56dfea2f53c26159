-- ===== src/Apu/Unit/Tests.antt =====
-- A sound unit as it starts, and runs of it.
use zenith_gb.Base.{
  ℕ, ◌+◌, ◌-◌, ◌*◌, ◌/◌, ◌%◌, ◌^◌, ◌≡◌, ◌⊎◌, inr, refl, true, false, ◌&&◌, not, [], ◌∷◌, some, ◌==◌,
  leb, min, get_elem?, if◌then◌else◌, arith, Returns,
}
use zenith_gb.Apu.LengthCounter
use zenith_gb.Apu.LengthCounter.Expiry
use zenith_gb.Apu.LengthCounter.Expiry.{clocks-expiry, write_nrx4-IsValid}
use zenith_gb.Apu.Envelope
use zenith_gb.Apu.Envelope.Ramp
use zenith_gb.Apu.Envelope.Ramp.{clocks-ramp}
use zenith_gb.Apu.Channel2.{Channel2, duty_wave, is_on}
use zenith_gb.Apu.Channel2.Bounds as Bounds2
use zenith_gb.Apu.Channel2.Wave
use zenith_gb.Apu.Channel2.Wave.{clocks-period}
use zenith_gb.Apu.Unit.{Apu, new}
use zenith_gb.Apu.Unit.NoPanic.{IsValid, new-IsValid}
use zenith_gb.Apu.Unit.Registers.{
  write_nr10, write_nr11, write_nr12, write_nr13, write_nr14, write_nr50, write_nr51, write_nr52,
  read_nr50, read_nr51, read_nr52,
}
use zenith_gb.Apu.Unit.Registers.Power.{switched_off}
use zenith_gb.Apu.Unit.Map.{nr12, nr14, wave_ram, clock_apu, write_to, run}
use zenith_gb.Apu.Unit.Map.Runs.{run-total}

abbrev counter : LengthCounter.LengthCounter
counter = record { frame_seq_step = 0; initial_count = 64; count = 3; enabled = true; cgb = true }

clocks-expiry_example :
    ((Expiry.clocks 2 counter).count ≡ 3 - 2)
    × ((LengthCounter.clock (Expiry.clocks 2 counter)).1 ≡ leb 3 (2 + 1))
clocks-expiry_example = clocks-expiry 2 counter refl

abbrev stopped : LengthCounter.LengthCounter
stopped = record counter { count = 0; enabled = false }

write_nrx4-IsValid_example :
    Returns
      (λ l'.
        (Expiry.IsValid 64 l')
        × (l'.enabled ≡ true)
        × ((true && l'.count == 0) ≡ (true && not false && true && 0 == 0 && 0 % 2 == 0)))
      (LengthCounter.write_nrx4 stopped true true)
write_nrx4-IsValid_example =
    write_nrx4-IsValid 64 stopped true true
      (record { big = omega arith; initial_eq = refl; in_range = omega arith })

abbrev rising : Envelope.Envelope
rising = record {
  period_timer = 3;
  enabled = true;
  volume = 12;
  initial_volume = 12;
  add_mode = true;
  period = 3;
}

clocks-ramp_example :
    (e' : Envelope.Envelope) × (Ramp.clocks (5 * 3) rising ≡ some e')
    × (Envelope.get_volume e' ≡ (if true then min 15 (12 + 5) else 12 - 5))
clocks-ramp_example = clocks-ramp 5 rising refl (omega arith) refl (omega arith)

abbrev tone : Channel2
tone = record {
  freq_timer = 1192;
  reg_frequency = 1750;
  envelope = rising;
  length_counter = counter;
  is_enabled = true;
  duty_cycle = 7;
  reg_waveduty = 1;
  reg_dac_enable = true;
  sample = 0;
}

tone-IsValid : Bounds2.IsValid tone
tone-IsValid = record {
  envelope_IsValid = record {
    volume_le = omega arith;
    initial_le = omega arith;
    period_le = omega arith;
    timer_pos = inr (omega arith);
  };
  counter_IsValid = record { big = omega arith; initial_eq = refl; in_range = omega arith };
  frequency_le = omega arith;
  timer_le = omega arith;
  duty_lt = omega arith;
  waveduty_lt = omega arith;
  sample_le = omega arith;
}

tone-on : is_on tone ≡ true
unfolding is_on
tone-on = refl

clocks-period_example :
    (wave : ℕ) × (get_elem? duty_wave 1 ≡ some wave)
    × (Wave.clocks ((2048 - 1750) * 4) tone
        ≡ some (record tone {
          sample = Envelope.get_volume rising * (wave / 2 ^ 7 % 2);
          duty_cycle = (7 + 1) % 8;
        }))
clocks-period_example = clocks-period tone tone-IsValid tone-on refl

abbrev unit : Apu
unit = new true

run-total_example : Returns IsValid (
    run
      (write_to nr12 0xf3 ∷ write_to nr14 0x87 ∷ clock_apu ∷ write_to (wave_ram 0xff30) 0x12 ∷ [])
      unit)
run-total_example =
    run-total
      (write_to nr12 0xf3 ∷ write_to nr14 0x87 ∷ clock_apu ∷ write_to (wave_ram 0xff30) 0x12 ∷ [])
      unit refl (new-IsValid true)

unit-on : unit.audio_enabled ≡ true
unfolding new
unit-on = refl

switched_off_example :
    let off = write_nr52 unit 0x00 in
    (read_nr50 off ≡ 0)
    × (read_nr51 off ≡ 0)
    × (read_nr52 off ≡ 0x70)
    × (write_nr50 off 0x77 ≡ off)
    × (write_nr51 off 0x77 ≡ off)
    × (write_nr10 off 0x77 ≡ off)
    × (write_nr12 off 0x77 ≡ off)
    × (write_nr13 off 0x77 ≡ off)
    × (write_nr14 off 0x77 ≡ some off)
    × ((unit.cgb ≡ false) ⊎ (write_nr11 off 0x77 ≡ off))
switched_off_example = switched_off unit 0x00 0x77 unit-on (omega arith)
