-- ===== src/Timer/Edge.antt =====
-- The edge detector: TIMA counts the falling edges of one divider bit, that is, the multiples of a
-- period that the divider passes.
use zenith_gb.Base.{
  ℕ, ◌+◌, ◌-◌, ◌*◌, ◌/◌, ◌%◌, ◌<◌, ◌≡◌, Bool, true, false, not, ◌&&◌, bit_and, u8, u16, ◌==◌, ◌!=◌,
  leb, of_bool, if◌then◌else◌, arith,
}
use zenith_gb.Base.Bits.{bit_and-bit, bit_and-mask}
use zenith_gb.Soc.Context.{ClockContext}
use zenith_gb.Timer.{Timer, div_bit, check_increment, reload, clock}

-- The number of divider steps between two increments.
abbrev pub period : ℕ → ℕ
period tac =
    if tac % 4 == 0 then 1024 else if tac % 4 == 1 then 16 else if tac % 4 == 2 then 64 else 256

abbrev pub enabled : ℕ → Bool
enabled tac = tac / 4 % 2 == 1

-- The signal that the edge detector watches: the upper half of each period, while enabled.
unfoldable pub signal : ℕ → ℕ → Bool
signal tac div = leb (period tac) (2 * (div % period tac)) && enabled tac

-- The stored edge state is the present signal.
abbrev pub IsSynced : Timer → Type 0
IsSynced t = t.and_result ≡ signal t.tac t.div

-- What the registers of a timer range over.
pub record IsValid (t : Timer) : Type 0 where
  pub div_word : t.div < 65536
  pub div_step : t.div % 4 ≡ 0
  pub tima_byte : t.tima < 256
  pub tma_byte : t.tma < 256
  pub tac_bits : t.tac < 8

div_bit-signal :
    (tac div : ℕ) → (div_bit (bit_and tac 3) div && (bit_and tac 4 != 0)) ≡ signal tac div
unfolding div_bit signal
div_bit-signal tac div = ground (
  arith,
  bit_and-mask 2 tac,
  bit_and-bit 2 tac,
  bit_and-bit 9 div,
  bit_and-bit 3 div,
  bit_and-bit 5 div,
  bit_and-bit 7 div,
)

-- What `check_increment` does to each field, with the edge in terms of the signal.
pub check_increment_lem :
    (t : Timer)
    → let edge = t.and_result && not (signal t.tac t.div) in
      (IsSynced (check_increment t))
      × ((check_increment t).tima ≡ (if edge then u8 (t.tima + 1) else t.tima))
      × ((check_increment t).tima_overflow
          ≡ (if edge && (t.tima + 1 == 256) then true else t.tima_overflow))
      × ((check_increment t).tac ≡ t.tac)
      × ((check_increment t).div ≡ t.div)
      × ((check_increment t).tma ≡ t.tma)
unfolding check_increment
check_increment_lem t = ground (arith, div_bit-signal t.tac t.div)

-- How many multiples of the period the next four divider steps reach.
unfoldable pub crossed : ℕ → ℕ → ℕ
crossed tac div = if enabled tac then (div + 4) / period tac - div / period tac else 0

-- For a divider in step, the falling edge of the signal is the crossing of a multiple.
pub edge-crossed :
    (tac div : ℕ)
    → div % 4 ≡ 0
    → div < 65536
    → of_bool (signal tac div && not (signal tac (u16 (div + 4)))) ≡ crossed tac div
unfolding signal crossed
edge-crossed tac div h w = ground arith

-- The registers stay in range through a clock.
pub clock-IsValid : (t : Timer) (ctx : ClockContext) → IsValid t → IsValid (clock t ctx).0
unfolding clock reload
clock-IsValid t ctx v =
    ground (
      arith,
      check_increment_lem (record (reload t ctx).0 { div = u16 ((reload t ctx).0.div + 4) }),
    )

-- A clock of a synced timer with no reload pending adds to TIMA, modulo 256, the number of
-- multiples of the period that the divider reaches; it marks an overflow exactly when TIMA wraps,
-- raises no interrupt, advances the divider by four modulo 65536, and leaves the timer synced.
pub clock_counts :
    (t : Timer) (ctx : ClockContext)
    → IsValid t
    → IsSynced t
    → t.tima_overflow ≡ false
    → let (c, ctx') = clock t ctx in
      (c.tima ≡ (t.tima + crossed t.tac t.div) % 256)
      × (c.tima_overflow ≡ (t.tima + crossed t.tac t.div == 256))
      × (ctx' ≡ ctx)
      × (c.div ≡ u16 (t.div + 4))
      × (c.tac ≡ t.tac)
      × (c.tma ≡ t.tma)
      × IsSynced c
unfolding clock reload
clock_counts t ctx v s o =
    ground
      (arith, check_increment_lem (record t { div = u16 (t.div + 4) }), edge-crossed t.tac t.div)
