-- ===== src/Apu/Sweep.antt =====
-- src/apu/sweep.rs: the frequency of channel 1, stepped up or down.
pub mod Bounds
use zenith_gb.Base.{
  ℕ, ◌+◌, ◌-◌, ◌%◌, ◌/◌, ◌^◌, Bool, true, false, ◌&&◌, ◌||◌, not, Option, none, some, bit_and,
  bit_or, ◌<<<◌, ◌>>>◌, u8, ◌==◌, ◌!=◌, ltb, checked_sub, ◌>>=◌, if◌then◌else◌,
}

pub record Sweep : Type 0 where
  pub period_timer : ℕ
  pub enabled : Bool
  pub negated_since_trigger : Bool
  pub period : ℕ
  pub negate : Bool
  pub shift : ℕ
  pub shadow_frequency : ℕ
  pub reg_frequency : ℕ

pub new : Sweep
new = record {
  period_timer = 0;
  enabled = false;
  negated_since_trigger = false;
  period = 0;
  negate = false;
  shift = 0;
  shadow_frequency = 0;
  reg_frequency = 0;
}

-- The new state and the next frequency. A frequency fits 11 bits, so that the signed arithmetic of
-- the code neither wraps nor goes below 0.
pub calc_frequency : Sweep → Sweep × ℕ
calc_frequency s =
    let offset = s.shadow_frequency >>> s.shift in
    if s.negate
    then (record s { negated_since_trigger = true }, s.shadow_frequency - offset)
    else (s, s.shadow_frequency + offset)

pub overflow_check : ℕ → Bool
overflow_check frequency = ltb 2047 frequency

pub reload_timer : Sweep → Sweep
reload_timer s = record s { period_timer = if s.period == 0 then 8 else s.period }

-- The end of `clock`, once the timer is at 0, and whether the frequency overflows.
pub step : Sweep → Sweep × Bool
step s =
    let reloaded = reload_timer s in
    if reloaded.period == 0
    then (reloaded, false)
    else let (s', next_freq) = calc_frequency reloaded in
      if overflow_check next_freq
      then (s', true)
      else if s'.shift == 0
      then (s', false)
      else let (s'', check_freq) =
          calc_frequency (record s' { shadow_frequency = next_freq; reg_frequency = next_freq }) in
        (s'', overflow_check check_freq)

pub clock : Sweep → Option (Sweep × Bool)
clock s =
    if not s.enabled
    then some (s, false)
    else (checked_sub s.period_timer 1 >>= λ timer. some (
        if timer != 0
        then (record s { period_timer = timer }, false)
        else step (record s { period_timer = timer })))

-- The new state, and whether the channel is to be disabled.
pub write_nr10 : Sweep → ℕ → Sweep × Bool
write_nr10 s byte =
    let negate = bit_and (byte >>> 3) 0x1 != 0 in
    (
      record s { period = bit_and (byte >>> 4) 0x7; negate = negate; shift = bit_and byte 0x7 },
      not negate && s.negated_since_trigger,
    )

pub read_nr10 : Sweep → ℕ
read_nr10 s =
    bit_or (bit_or (bit_or (u8 (s.period <<< 4)) (if s.negate then 1 <<< 3 else 0)) s.shift) 0x80

pub trigger : Sweep → Sweep × Bool
trigger s =
    let s' = reload_timer (record s {
      negated_since_trigger = false;
      shadow_frequency = s.reg_frequency;
      enabled = s.period != 0 || s.shift != 0;
    }) in
    if s'.shift != 0
    then (let (s'', freq) = calc_frequency s' in (s'', overflow_check freq))
    else (s', false)

pub set_frequency_msb : Sweep → ℕ → Sweep
set_frequency_msb s freq_msb = record s {
  reg_frequency = bit_or (bit_and freq_msb 0x7 <<< 8) (bit_and s.reg_frequency 0xff);
}

pub set_frequency_lsb : Sweep → ℕ → Sweep
set_frequency_lsb s freq_lsb = record s {
  reg_frequency = bit_or (bit_and s.reg_frequency 0x700) freq_lsb;
}

pub shutdown : Sweep → Sweep
shutdown s = record {
  period_timer = 0;
  enabled = false;
  negated_since_trigger = false;
  period = 0;
  negate = false;
  shift = 0;
  shadow_frequency = 0;
  reg_frequency = 0;
}
