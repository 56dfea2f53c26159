-- ===== src/Apu/Sweep/Bounds.antt =====
-- The frequencies of a sweep stay within 11 bits, and its timer never underflows.
use zenith_gb.Base.{
  ℕ, ◌-◌, ◌%◌, ◌≤◌, ◌<◌, ◌≡◌, refl, inl, inr, ◌⊎◌, false, not, bit_and, ◌!=◌, ltb, arith, Returns,
  Bool-cases,
}
use zenith_gb.Base.Bits.{bit_and-mask, bit_and-le, bit_or-fields, bit_or-lt_two_pow}
use zenith_gb.Apu.Sweep.{
  Sweep, new, calc_frequency, overflow_check, reload_timer, step, clock, write_nr10, trigger,
  set_frequency_msb, set_frequency_lsb, shutdown,
}

pub record IsValid (s : Sweep) : Type 0 where
  pub shadow_le : s.shadow_frequency ≤ 2047
  pub reg_le : s.reg_frequency ≤ 2047
  pub timer_pos : (s.enabled ≡ false) ⊎ (1 ≤ s.period_timer)

step-IsValid : (s : Sweep) → s.shadow_frequency ≤ 2047 → s.reg_frequency ≤ 2047 → IsValid (step s).0
unfolding step reload_timer calc_frequency overflow_check
step-IsValid s a b = ground arith

-- A clock of a sweep does not panic, and leaves both frequencies within 11 bits.
pub clock-IsValid : (s : Sweep) → IsValid s → Returns (λ r. IsValid r.0) (clock s)
unfolding clock
clock-IsValid s v = elim (Bool-cases (not s.enabled)) [
  | inr on ↦
      let fits : ltb s.period_timer 1 ≡ false = ground (arith, v) in
      simp (on, fits)
        (elim (Bool-cases (s.period_timer - 1 != 0)) [
          | inl more ↦
              simp more
                ((record s { period_timer = s.period_timer - 1 }, false), refl, ground (arith, v))
          | inr last ↦
              let zero_timer : Sweep = record s { period_timer = s.period_timer - 1 } in
              simp last (step zero_timer, refl, step-IsValid zero_timer v.shadow_le v.reg_le)
        ])
  | inl off ↦ simp off ((s, false), refl, v)
]

pub trigger-IsValid : (s : Sweep) → IsValid s → IsValid (trigger s).0
unfolding trigger reload_timer calc_frequency overflow_check
trigger-IsValid s v = ground (arith, v)

pub write_nr10-IsValid : (s : Sweep) (byte : ℕ) → IsValid s → IsValid (write_nr10 s byte).0
unfolding write_nr10
write_nr10-IsValid s byte v = ground (arith, v)

pub set_frequency_msb-IsValid :
    (s : Sweep) (byte : ℕ) → IsValid s → IsValid (set_frequency_msb s byte)
unfolding set_frequency_msb
set_frequency_msb-IsValid s byte v = ground (
  arith,
  v,
  bit_and-mask 3 byte,
  bit_and-mask 8 s.reg_frequency,
  bit_or-fields 8 (byte % 8) (s.reg_frequency % 256),
)

pub set_frequency_lsb-IsValid :
    (s : Sweep) (byte : ℕ) → byte < 256 → IsValid s → IsValid (set_frequency_lsb s byte)
unfolding set_frequency_lsb
set_frequency_lsb-IsValid s byte lt v = ground (
  arith,
  v,
  bit_and-le s.reg_frequency 0x700,
  bit_or-lt_two_pow 11 (bit_and s.reg_frequency 0x700) byte,
)

pub shutdown-IsValid : (s : Sweep) → IsValid (shutdown s)
unfolding shutdown
shutdown-IsValid s = ground arith

pub new-IsValid : IsValid new
unfolding new
new-IsValid = ground arith
