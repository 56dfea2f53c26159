-- ===== src/Apu/LengthCounter.antt =====
-- src/apu/lengthcounter.rs: the counter that silences a channel after a number of clocks.
pub mod Expiry
use zenith_gb.Base.{
  ℕ, ◌-◌, ◌%◌, Bool, true, false, ◌&&◌, ◌||◌, not, Option, none, some, bit_and, ◌==◌, ◌!=◌,
  checked_sub, ◌>>=◌, if◌then◌else◌,
}

-- `cgb` is `ctx.cgb`.
pub record LengthCounter : Type 0 where
  pub frame_seq_step : ℕ
  pub initial_count : ℕ
  pub count : ℕ
  pub enabled : Bool
  pub cgb : Bool

pub new : ℕ → Bool → LengthCounter
new initial_count cgb = record {
  frame_seq_step = 0;
  initial_count = initial_count;
  count = 1;
  enabled = false;
  cgb = cgb;
}

-- The new state, and whether the counter is enabled and at 0.
pub clock : LengthCounter → LengthCounter × Bool
clock l =
    let count = if l.enabled && l.count != 0 then l.count - 1 else l.count in
    (record l { count = count }, l.enabled && count == 0)

pub write_nrx4_enabled : LengthCounter → (trigger_bit enable_bit : Bool) → Option LengthCounter
write_nrx4_enabled l trigger_bit enable_bit =
    if not trigger_bit || l.count != 0
    then some l
    else if enable_bit
    then (checked_sub l.initial_count (bit_and l.frame_seq_step 1) >>= λ count.
        some (record l { count = count }))
    else some (record l { count = l.initial_count })

pub write_nrx4_disabled_to_enabled : LengthCounter → Bool → Option LengthCounter
write_nrx4_disabled_to_enabled l trigger_bit =
    if bit_and l.frame_seq_step 1 == 0
    then some l
    else let count = l.count - 1 in
      if count == 0 && trigger_bit
      then (checked_sub l.initial_count 1 >>= λ c. some (record l { count = c }))
      else some (record l { count = count })

pub write_nrx4_disabled : LengthCounter → Bool → LengthCounter
write_nrx4_disabled l trigger_bit =
    if not trigger_bit || l.count != 0 then l else record l { count = l.initial_count }

pub write_nrx4 : LengthCounter → (trigger_bit enable_bit : Bool) → Option LengthCounter
write_nrx4 l trigger_bit enable_bit = do
  l' ←
      if l.enabled
      then write_nrx4_enabled l trigger_bit enable_bit
      else if enable_bit
      then write_nrx4_disabled_to_enabled l trigger_bit
      else some (write_nrx4_disabled l trigger_bit)
  some (record l' { enabled = enable_bit })

pub set_count : LengthCounter → ℕ → LengthCounter
set_count l count = record l { count = count }

pub update_frame_sequencer_step : LengthCounter → ℕ → LengthCounter
update_frame_sequencer_step l step = record l { frame_seq_step = step }

pub shutdown : LengthCounter → LengthCounter
shutdown l = record l {
  enabled = false;
  frame_seq_step = 0;
  count = if l.cgb then l.initial_count else l.count;
}
