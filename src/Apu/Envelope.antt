-- ===== src/Apu/Envelope.antt =====
-- src/apu/envelope.rs: the volume of a channel, stepped up or down.
pub mod Ramp
use zenith_gb.Base.{
  ℕ, ◌+◌, ◌-◌, ◌%◌, Bool, true, false, ◌&&◌, ◌||◌, not, Option, none, some, bit_and, bit_or, ◌<<<◌,
  ◌>>>◌, u8, ◌==◌, ◌!=◌, ltb, checked_sub, ◌>>=◌, if◌then◌else◌,
}

pub record Envelope : Type 0 where
  pub period_timer : ℕ
  pub enabled : Bool
  pub volume : ℕ
  pub initial_volume : ℕ
  pub add_mode : Bool
  pub period : ℕ

pub new : (initial_volume : ℕ) → (add_mode : Bool) → (period : ℕ) → Envelope
new initial_volume add_mode period = record {
  period_timer = 0;
  enabled = false;
  volume = 0;
  initial_volume = initial_volume;
  add_mode = add_mode;
  period = period;
}

pub reload_timer : Envelope → Envelope
reload_timer e = record e { period_timer = if e.period == 0 then 8 else e.period }

-- The end of `clock`, once the timer is at 0.
pub step : Envelope → Envelope
step e =
    let volume =
      if e.add_mode
      then if ltb e.volume 15 then e.volume + 1 else e.volume
      else if ltb 0 e.volume
      then e.volume - 1
      else e.volume in
    record (reload_timer e) {
      volume = volume;
      enabled = if volume == 0 || volume == 15 then false else e.enabled;
    }

pub clock : Envelope → Option Envelope
clock e =
    if e.period == 0 || not e.enabled
    then some e
    else (checked_sub e.period_timer 1 >>= λ timer. some (
        if timer != 0
        then record e { period_timer = timer }
        else step (record e { period_timer = timer })))

pub write_nrx2 : Envelope → ℕ → Envelope
write_nrx2 e byte = record e {
  initial_volume = bit_and (byte >>> 4) 0xf;
  add_mode = bit_and byte 0x8 != 0;
  period = bit_and byte 0x7;
}

pub read_nrx2 : Envelope → ℕ
read_nrx2 e =
    bit_or (bit_or (u8 (e.initial_volume <<< 4)) (if e.add_mode then 1 <<< 3 else 0)) e.period

pub trigger : Envelope → Envelope
trigger e = reload_timer (record e { enabled = true; volume = e.initial_volume })

pub get_volume : Envelope → ℕ
get_volume e = if e.period == 0 then e.initial_volume else e.volume

pub shutdown : Envelope → Envelope
shutdown e = record {
  period_timer = 0;
  enabled = false;
  volume = 0;
  initial_volume = 0;
  add_mode = false;
  period = 0;
}
