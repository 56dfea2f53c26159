-- ===== src/Apu/LengthCounter/Expiry.antt =====
-- When a length counter silences its channel, and what a write of NRx4 leaves in it.
use zenith_gb.Base.{
  ℕ, zero, suc, ◌+◌, ◌-◌, ◌%◌, ◌≤◌, ◌≡◌, refl, Bool, true, false, ◌&&◌, not, some, bit_and, ◌==◌,
  ltb, leb, if◌then◌else◌, arith, Returns,
}
use zenith_gb.Base.Bits.{bit_and-mask}
use zenith_gb.Apu.LengthCounter.{
  LengthCounter, new, clock, set_count, update_frame_sequencer_step, shutdown, write_nrx4,
  write_nrx4_enabled, write_nrx4_disabled_to_enabled, write_nrx4_disabled,
}

-- `n` clocks.
unfoldable pub clocks : ℕ → LengthCounter → LengthCounter
clocks zero l = l
clocks (suc n) l = clocks n (clock l).0

-- The clocks of an enabled counter count it down, and stop at 0; the first that reports an expiry
-- is the one that reaches 0, and so does every later one.
pub clocks-expiry :
    (n : ℕ) (l : LengthCounter)
    → l.enabled ≡ true
    → ((clocks n l).count ≡ l.count - n) × ((clock (clocks n l)).1 ≡ leb l.count (n + 1))
unfolding clocks clock
clocks-expiry zero l on = ground arith
clocks-expiry (suc n) l on = ground (arith, clocks-expiry n (clock l).0)

-- A counter of a channel whose initial count is `initial`.
pub record IsValid (initial : ℕ) (l : LengthCounter) : Type 0 where
  pub big : 2 ≤ initial
  pub initial_eq : l.initial_count ≡ initial
  pub in_range : l.count ≤ initial

pub clock-IsValid :
    (initial : ℕ) (l : LengthCounter) → IsValid initial l → IsValid initial (clock l).0
unfolding clock
clock-IsValid initial l v = ground (arith, v)

abbrev next_count : LengthCounter → (trigger_bit enable_bit : Bool) → ℕ
next_count l trigger_bit enable_bit =
    if l.enabled
    then if trigger_bit && l.count == 0
      then if enable_bit then l.initial_count - l.frame_seq_step % 2 else l.initial_count
      else l.count
    else if enable_bit
    then if l.frame_seq_step % 2 == 0
      then l.count
      else if l.count - 1 == 0 && trigger_bit
      then l.initial_count - 1
      else l.count - 1
    else if trigger_bit && l.count == 0
    then l.initial_count
    else l.count

write_nrx4-next :
    (initial : ℕ) (l : LengthCounter) (trigger_bit enable_bit : Bool)
    → IsValid initial l
    → write_nrx4 l trigger_bit enable_bit
      ≡ some (record l { count = next_count l trigger_bit enable_bit; enabled = enable_bit })
unfolding write_nrx4 write_nrx4_enabled write_nrx4_disabled_to_enabled write_nrx4_disabled
write_nrx4-next initial l trigger_bit enable_bit v =
    let bit : bit_and l.frame_seq_step 1 ≡ l.frame_seq_step % 2 = bit_and-mask 1 l.frame_seq_step in
    let fits : ltb l.initial_count (l.frame_seq_step % 2) ≡ false = ground (arith, v) in
    let fits_one : ltb l.initial_count 1 ≡ false = ground (arith, v) in
    simp (bit, fits, fits_one) (ground arith)

-- A write of NRx4 on a channel's counter in range does not panic, sets the enable bit, and leaves a
-- count in range. With the trigger bit it leaves a count of 0 in one case only: it enables a
-- counter that was at 0 and disabled while the step of the frame sequencer is even.
pub write_nrx4-IsValid :
    (initial : ℕ) (l : LengthCounter) (trigger_bit enable_bit : Bool)
    → IsValid initial l
    → Returns
        (λ l'.
          (IsValid initial l')
          × (l'.enabled ≡ enable_bit)
          × ((trigger_bit && l'.count == 0) ≡ (
              trigger_bit
              && not l.enabled
              && enable_bit
              && l.count == 0
              && l.frame_seq_step % 2 == 0)))
        (write_nrx4 l trigger_bit enable_bit)
write_nrx4-IsValid initial l trigger_bit enable_bit v = (
  record l { count = next_count l trigger_bit enable_bit; enabled = enable_bit },
  write_nrx4-next initial l trigger_bit enable_bit v,
  (ground (arith, v), refl, ground (arith, v)),
)

pub set_count-IsValid :
    (initial : ℕ) (l : LengthCounter) (count : ℕ)
    → count ≤ initial
    → IsValid initial l
    → IsValid initial (set_count l count)
unfolding set_count
set_count-IsValid initial l count le v = ground (arith, v)

pub shutdown-IsValid :
    (initial : ℕ) (l : LengthCounter) → IsValid initial l → IsValid initial (shutdown l)
unfolding shutdown
shutdown-IsValid initial l v = ground (arith, v)

pub new-IsValid : (initial : ℕ) (cgb : Bool) → 2 ≤ initial → IsValid initial (new initial cgb)
unfolding new
new-IsValid initial cgb big = ground arith

pub update-IsValid :
    (initial : ℕ) (l : LengthCounter) (step : ℕ)
    → IsValid initial l
    → IsValid initial (update_frame_sequencer_step l step)
unfolding update_frame_sequencer_step
update-IsValid initial l step v = ground (arith, v)
