-- ===== src/Apu/Channel4/Noise.antt =====
-- The 15-bit shift register of channel 4.
use zenith_gb.Base.{
  ℕ, zero, suc, ◌+◌, ◌*◌, ◌%◌, ◌/◌, ◌<◌, ◌≡◌, refl, false, bit_and, bit_xor, ◌<<<◌, ◌>>>◌, u16,
  ◌==◌, if◌then◌else◌, arith,
}
use zenith_gb.Base.Bits.{bit_and-mask, bit_or-fields, bit_or_comm}
use zenith_gb.Apu.Channel4.{lfsr_step}

-- The bit that is fed back is the negated exclusive or of the two lowest bits.
fed_back : (a b : ℕ) → a < 2 → b < 2 → bit_xor (bit_xor a b) 1 ≡ (if a == b then 1 else 0)
fed_back zero zero p q = refl
fed_back zero (suc zero) p q = refl
fed_back (suc zero) zero p q = refl
fed_back (suc zero) (suc zero) p q = refl
fed_back (suc (suc a)) b p q = absurd (omega arith)
fed_back a (suc (suc b)) p q = absurd (omega arith)

-- In 15-bit mode a step shifts right and feeds back into bit 14.
pub lfsr_step-shift :
    (lfsr : ℕ)
    → lfsr < 32768
    → lfsr_step false lfsr ≡ lfsr / 2 + (if lfsr % 2 == lfsr / 2 % 2 then 16384 else 0)
unfolding lfsr_step
lfsr_step-shift lfsr lt =
    let a_lem : bit_and lfsr 0x1 ≡ lfsr % 2 = bit_and-mask 1 lfsr in
    let b_lem : bit_and (lfsr >>> 1) 0x1 ≡ lfsr / 2 % 2 = bit_and-mask 1 (lfsr >>> 1) in
    let low_lem : bit_and lfsr 0x7fff ≡ lfsr = ground (arith, bit_and-mask 15 lfsr) in
    let x : ℕ = if lfsr % 2 == lfsr / 2 % 2 then 1 else 0 in
    let fed = fed_back (lfsr % 2) (lfsr / 2 % 2) (omega arith) (omega arith) in
    let high : u16 (x <<< 15) ≡ x * 32768 = ground arith in
    let join = bit_or-fields 15 x lfsr lt in
    let swap = bit_or_comm lfsr (x * 32768) in
    simp (a_lem, b_lem, low_lem, fed, high, swap, join) (ground arith)

-- `n` steps in 15-bit mode.
unfoldable pub lfsr_run : ℕ → ℕ → ℕ
lfsr_run zero lfsr = lfsr
lfsr_run (suc n) lfsr = lfsr_run n (lfsr_step false lfsr)

-- In 15-bit mode the shift register never reaches the state of fifteen ones, in which it would
-- stay: from any other state of 15 bits, in particular from the 0 of a trigger, any number of steps
-- leads to another such state.
pub lfsr_run-no_lock : (n lfsr : ℕ) → lfsr < 32767 → lfsr_run n lfsr < 32767
unfolding lfsr_run
lfsr_run-no_lock zero lfsr lt = lt
lfsr_run-no_lock (suc n) lfsr lt =
    lfsr_run-no_lock n (lfsr_step false lfsr) (ground (arith, lfsr_step-shift lfsr))

-- Two states of 15 bits that step to the same state are the same.
pub lfsr_step-injective :
    (a b : ℕ) → a < 32768 → b < 32768 → lfsr_step false a ≡ lfsr_step false b → a ≡ b
lfsr_step-injective a b lt lt' e = ground (arith, lfsr_step-shift a, lfsr_step-shift b)
