-- ===== src/Apu/Channel2/Wave.antt =====
-- How fast the wave of channel 2 advances, and what it plays.
use zenith_gb.Base.{
  ℕ, zero, suc, ◌+◌, ◌-◌, ◌*◌, ◌%◌, ◌/◌, ◌^◌, ◌<◌, ◌≡◌, sym, ap, ◌∙◌, inl, inr, true, Option, some,
  ◌>>>◌, ltb, ◌>>=◌, arith, Option-cases, get_elem?, get_elem?-total,
}
use zenith_gb.Base.Bits.{bit_and-mask}
use zenith_gb.Apu.Envelope
use zenith_gb.Apu.Channel2.{Channel2, duty_wave, next_sample, clock, is_on}
use zenith_gb.Apu.Channel2.Bounds.{IsValid, period-some}

-- `n` clocks.
unfoldable pub clocks : ℕ → Channel2 → Option Channel2
clocks zero c = some c
clocks (suc n) c = clock c >>= clocks n

clocks-add : (a b : ℕ) (c : Channel2) → clocks (a + b) c ≡ (clocks a c >>= clocks b)
unfolding clocks
clocks-add zero b c = let eq : 0 + b ≡ b = omega arith in ap (λ n. clocks n c) eq
clocks-add (suc a) b c =
    let eq : suc a + b ≡ suc (a + b) = omega arith in
    ap (λ n. clocks n c) eq ∙ elim (Option-cases (clock c)) [
      | inl p ↦ simp p
      | inr (next, p) ↦ simp p (clocks-add a b next)
    ]

countdown :
    (n : ℕ) (c : Channel2)
    → n < c.freq_timer
    → clocks n c ≡ some (record c { freq_timer = c.freq_timer - n })
unfolding clocks clock
countdown zero c lt =
    let eq : c.freq_timer ≡ c.freq_timer - 0 = omega arith in
    ap (λ k. some (record c { freq_timer = k })) eq
countdown (suc n) c lt =
    let more : ltb 1 c.freq_timer ≡ true = ground arith in
    let eq : c.freq_timer - 1 - n ≡ c.freq_timer - suc n = omega arith in
    simp more (
      countdown n (record c { freq_timer = c.freq_timer - 1 }) (omega arith)
      ∙ ap (λ k. some (record c { freq_timer = k })) eq)

-- A period of a channel in range that is on, which `4 * (2048 - frequency)` clocks make up: then
-- one bit of the selected duty wave is played at the envelope's volume, the position in the wave
-- moves to the next of the eight bits, and a new period starts; nothing else changes.
pub clocks-period :
    (c : Channel2)
    → IsValid c
    → is_on c ≡ true
    → c.freq_timer ≡ (2048 - c.reg_frequency) * 4
    → (wave : ℕ) × (get_elem? duty_wave c.reg_waveduty ≡ some wave)
      × (clocks ((2048 - c.reg_frequency) * 4) c
          ≡ some (record c {
            sample = Envelope.get_volume c.envelope * (wave / 2 ^ c.duty_cycle % 2);
            duty_cycle = (c.duty_cycle + 1) % 8;
          }))
unfolding clocks clock next_sample is_on
clocks-period c v on start =
    let (wave, found) = get_elem?-total duty_wave c.reg_waveduty (ground (arith, v)) in
    let n : ℕ = (2048 - c.reg_frequency) * 4 - 1 in
    let eq : (2048 - c.reg_frequency) * 4 ≡ n + 1 = ground (arith, v) in
    let one : c.freq_timer - n ≡ 1 = ground (arith, v) in
    let bit = bit_and-mask 1 (wave >>> c.duty_cycle) in
    let next = bit_and-mask 3 (c.duty_cycle + 1) in
    (
      wave,
      found,
      ap (λ k. clocks k c) eq
          ∙ clocks-add n 1 c
          ∙ simp
              (countdown n c (omega arith), one, period-some c v.frequency_le, on, found, bit, next)
              (ap
                (λ k. some (record c {
                  freq_timer = k;
                  sample = Envelope.get_volume c.envelope * (wave / 2 ^ c.duty_cycle % 2);
                  duty_cycle = (c.duty_cycle + 1) % 8;
                }))
                (sym start)),
    )
