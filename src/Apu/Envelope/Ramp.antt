-- ===== src/Apu/Envelope/Ramp.antt =====
-- The volume of an envelope over time.
use zenith_gb.Base.{
  ℕ, zero, suc, ◌+◌, ◌-◌, ◌*◌, ◌%◌, ◌/◌, ◌≤◌, ◌<◌, ◌≡◌, refl, sym, ap, ◌∙◌, inl, inr, ◌⊎◌, Bool,
  true, false, ◌||◌, not, Option, some, bit_and, bit_or, ◌<<<◌, ◌>>>◌, u8, ◌==◌, ◌!=◌, ltb, ◌>>=◌,
  if◌then◌else◌, arith, Returns, Bool-cases, Option-cases, min,
}
use zenith_gb.Base.Bits.{bit_and-mask, bit_and-bit, bit_or-fields}
use zenith_gb.Apu.Envelope.{
  Envelope, new, clock, step, reload_timer, trigger, get_volume, write_nrx2, read_nrx2, shutdown,
}

pub record IsValid (e : Envelope) : Type 0 where
  pub volume_le : e.volume ≤ 15
  pub initial_le : e.initial_volume ≤ 15
  pub period_le : e.period ≤ 7
  pub timer_pos : (e.enabled ≡ false) ⊎ (1 ≤ e.period_timer)

pub step-IsValid :
    (e : Envelope) → e.volume ≤ 15 → e.initial_volume ≤ 15 → e.period ≤ 7 → IsValid (step e)
unfolding step reload_timer
step-IsValid e a b c = ground arith

pub clock-IsValid : (e : Envelope) → IsValid e → Returns IsValid (clock e)
unfolding clock
clock-IsValid e v = elim (Bool-cases (e.period == 0 || not e.enabled)) [
  | inl off ↦ simp off (e, refl, v)
  | inr on ↦
      let fits : ltb e.period_timer 1 ≡ false = ground (arith, v) in
      simp (on, fits)
        (elim (Bool-cases (e.period_timer - 1 != 0)) [
          | inl more ↦
              simp more (record e { period_timer = e.period_timer - 1 }, refl, ground (arith, v))
          | inr last ↦
              let zero_timer : Envelope = record e { period_timer = e.period_timer - 1 } in
              simp last (
                step zero_timer,
                refl,
                step-IsValid zero_timer v.volume_le v.initial_le v.period_le,
              )
        ])
]

pub new-IsValid :
    (initial_volume : ℕ) (add_mode : Bool) (period : ℕ)
    → initial_volume ≤ 15
    → period ≤ 7
    → IsValid (new initial_volume add_mode period)
unfolding new
new-IsValid initial_volume add_mode period le le' = ground arith

pub trigger-IsValid : (e : Envelope) → IsValid e → IsValid (trigger e)
unfolding trigger reload_timer
trigger-IsValid e v = ground (arith, v)

pub write_nrx2-IsValid : (e : Envelope) (byte : ℕ) → IsValid e → IsValid (write_nrx2 e byte)
unfolding write_nrx2
write_nrx2-IsValid e byte v = ground (arith, v, bit_and-mask 3 byte, bit_and-mask 4 (byte >>> 4))

pub shutdown-IsValid : (e : Envelope) → IsValid (shutdown e)
unfolding shutdown
shutdown-IsValid e = ground arith

pub get_volume-le : (e : Envelope) → IsValid e → get_volume e ≤ 15
unfolding get_volume
get_volume-le e v = ground (arith, v)

-- A byte that is written to NRx2 is read back whole.
pub read-write_nrx2 : (e : Envelope) (byte : ℕ) → byte < 256 → read_nrx2 (write_nrx2 e byte) ≡ byte
unfolding read_nrx2 write_nrx2
read-write_nrx2 e byte lt =
    let hi : ℕ = byte / 16 % 16 in
    let bit : ℕ = byte / 8 % 2 in
    let low : ℕ = byte % 8 in
    let high_lem : u8 (bit_and (byte >>> 4) 0xf <<< 4) ≡ hi * 16 =
      ground (arith, bit_and-mask 4 (byte >>> 4)) in
    let bit_lem : (if bit_and byte 0x8 != 0 then 1 <<< 3 else 0) ≡ bit * 8 =
      ground (arith, bit_and-bit 3 byte) in
    let low_lem : bit_and byte 7 ≡ low = bit_and-mask 3 byte in
    let join : bit_or (hi * 16) (bit * 8) ≡ (2 * hi + bit) * 8 =
      ground (arith, bit_or-fields 4 hi (bit * 8)) in
    simp (high_lem, bit_lem, low_lem, join) (ground (arith, bit_or-fields 3 (2 * hi + bit) low))

-- `n` clocks.
unfoldable pub clocks : ℕ → Envelope → Option Envelope
clocks zero e = some e
clocks (suc n) e = clock e >>= clocks n

clocks-disabled : (n : ℕ) (e : Envelope) → e.enabled ≡ false → clocks n e ≡ some e
unfolding clocks clock
clocks-disabled zero e off = refl
clocks-disabled (suc n) e off =
    let stays : (e.period == 0 || not e.enabled) ≡ true = ground arith in
    simp stays (clocks-disabled n e off)

clocks-add : (a b : ℕ) (e : Envelope) → clocks (a + b) e ≡ (clocks a e >>= clocks b)
unfolding clocks
clocks-add zero b e = let eq : 0 + b ≡ b = omega arith in ap (λ n. clocks n e) eq
clocks-add (suc a) b e =
    let eq : suc a + b ≡ suc (a + b) = omega arith in
    ap (λ n. clocks n e) eq ∙ elim (Option-cases (clock e)) [
      | inl p ↦ simp p
      | inr (next, p) ↦ simp p (clocks-add a b next)
    ]

-- The clocks before the timer runs out count it down.
countdown :
    (n : ℕ) (e : Envelope)
    → e.enabled ≡ true
    → 0 < e.period
    → n < e.period_timer
    → clocks n e ≡ some (record e { period_timer = e.period_timer - n })
unfolding clocks clock
countdown zero e on some_period lt =
    let eq : e.period_timer ≡ e.period_timer - 0 = omega arith in
    ap (λ k. some (record e { period_timer = k })) eq
countdown (suc n) e on some_period lt =
    let runs : (e.period == 0 || not e.enabled) ≡ false = ground arith in
    let fits : ltb e.period_timer 1 ≡ false = ground arith in
    let more : (e.period_timer - 1 != 0) ≡ true = ground arith in
    let eq : e.period_timer - 1 - n ≡ e.period_timer - suc n = omega arith in
    simp (runs, fits, more)
      (countdown n (record e { period_timer = e.period_timer - 1 }) on some_period (omega arith)
        ∙ ap (λ k. some (record e { period_timer = k })) eq)

-- A whole period is a step.
one_period :
    (e : Envelope)
    → e.enabled ≡ true
    → 0 < e.period
    → 0 < e.period_timer
    → clocks e.period_timer e ≡ some (step (record e { period_timer = 0 }))
unfolding clocks clock
one_period e on some_period pos =
    let n : ℕ = e.period_timer - 1 in
    let eq : e.period_timer ≡ n + 1 = omega arith in
    let runs : (e.period == 0 || not e.enabled) ≡ false = ground arith in
    let one : e.period_timer - n ≡ 1 = omega arith in
    ap (λ k. clocks k e) eq
    ∙ clocks-add n 1 e
    ∙ simp (countdown n e on some_period (omega arith), runs, one)

-- The volume after `n` steps.
abbrev pub ramped : Envelope → ℕ → ℕ
ramped e n = if e.add_mode then min 15 (e.volume + n) else e.volume - n

step-ramped :
    (n : ℕ) (e : Envelope)
    → e.volume ≤ 15
    → let e' = step (record e { period_timer = 0 }) in
      (ramped e' n ≡ ramped e (suc n))
      × (e'.period ≡ e.period)
      × ((e'.enabled ≡ e.enabled) ⊎ (ramped e' n ≡ e'.volume))
      × (0 < e.period → e'.period_timer ≡ e.period)
      × (e'.volume ≤ 15)
unfolding step reload_timer
step-ramped n e le = ground arith

ramp :
    (n : ℕ) (e : Envelope)
    → e.enabled ≡ true
    → 0 < e.period
    → e.period_timer ≡ e.period
    → e.volume ≤ 15
    → (e' : Envelope) × (clocks (n * e.period) e ≡ some e')
      × (e'.volume ≡ ramped e n)
      × (e'.period ≡ e.period)
unfolding clocks
ramp zero e on some_period start le =
    let eq : 0 * e.period ≡ 0 = ground arith in (e, ap (λ k. clocks k e) eq, ground arith, refl)
ramp (suc n) e on some_period start le =
    let next : Envelope = step (record e { period_timer = 0 }) in
    let (volume, period, enabled, timer, le') = step-ramped n e le in
    let eq : suc n * e.period ≡ e.period_timer + n * e.period = ground arith in
    let same : n * next.period ≡ n * e.period = ap (λ p. n * p) period in
    let runs : clocks (suc n * e.period) e ≡ clocks (n * next.period) next =
      ap (λ k. clocks k e) eq
      ∙ clocks-add e.period_timer (n * e.period) e
      ∙ ap (λ m. m >>= clocks (n * e.period)) (one_period e on some_period (omega arith))
      ∙ ap (λ k. clocks k next) (sym same) in
    elim (Bool-cases next.enabled) [
      | inl on' ↦
          let (e', runs', volume', period') =
            ramp n next on' (ground arith) (timer some_period ∙ sym period) le' in
          (e', runs ∙ runs', volume' ∙ volume, period' ∙ period)
      | inr off ↦ (next, runs ∙ clocks-disabled (n * next.period) next off, ground arith, period)
    ]

-- An envelope that starts a period at a volume of at most 15 has, after `n` whole periods, its
-- volume plus `n`, to 15 at most, in add mode, and its volume less `n`, to 0 at least, else.
pub clocks-ramp :
    (n : ℕ) (e : Envelope)
    → e.enabled ≡ true
    → 0 < e.period
    → e.period_timer ≡ e.period
    → e.volume ≤ 15
    → (e' : Envelope) × (clocks (n * e.period) e ≡ some e')
      × (get_volume e' ≡ (if e.add_mode then min 15 (e.volume + n) else e.volume - n))
unfolding get_volume
clocks-ramp n e on some_period start le =
    let (e', runs, volume, period) = ramp n e on some_period start le in (e', runs, ground arith)
