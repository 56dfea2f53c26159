-- ===== src/Apu/Unit/Registers/Validity.antt =====
-- A write of a sound register keeps the invariant of the unit.
use zenith_gb.Base.{
  ℕ, ◌<◌, refl, inl, inr, ◌&&◌, not, bit_and, ◌>>>◌, if◌then◌else◌, arith, Returns, Bool-cases,
  if_cases,
}
use zenith_gb.Base.Bits.{bit_and-mask}
use zenith_gb.Apu.Channel1.Bounds as Bounds1
use zenith_gb.Apu.Channel2.Bounds as Bounds2
use zenith_gb.Apu.Channel3.Bounds as Bounds3
use zenith_gb.Apu.Channel4.Bounds as Bounds4
use zenith_gb.Apu.Unit.{Apu}
use zenith_gb.Apu.Unit.NoPanic.{IsValid}
use zenith_gb.Apu.Unit.Registers.{
  write_nr10, write_nr11, write_nr12, write_nr13, write_nr14, write_nr21, write_nr22, write_nr23,
  write_nr24, write_nr30, write_nr31, write_nr32, write_nr33, write_nr34, write_nr41, write_nr42,
  write_nr43, write_nr44, write_nr50, write_nr51, write_nr52, write_wave_ram, power_off,
}

pub write_nr10-IsValid : (a : Apu) (byte : ℕ) → IsValid a → IsValid (write_nr10 a byte)
unfolding write_nr10
write_nr10-IsValid a byte v =
    let v' = Bounds1.write_nr10-IsValid a.channel1 byte v.channel1_IsValid in
    if_cases IsValid (not a.audio_enabled) (λ _. v) (λ _. ground (arith, v))

pub write_nr11-IsValid : (a : Apu) (byte : ℕ) → IsValid a → IsValid (write_nr11 a byte)
unfolding write_nr11
write_nr11-IsValid a byte v =
    let v' =
      Bounds1.write_nr11-IsValid a.channel1 (if a.audio_enabled then byte else bit_and byte 0x3f)
        v.channel1_IsValid in
    if_cases IsValid (not a.audio_enabled && a.cgb) (λ _. v) (λ _. ground (arith, v))

pub write_nr12-IsValid : (a : Apu) (byte : ℕ) → IsValid a → IsValid (write_nr12 a byte)
unfolding write_nr12
write_nr12-IsValid a byte v =
    let v' = Bounds1.write_nr12-IsValid a.channel1 byte v.channel1_IsValid in
    if_cases IsValid (not a.audio_enabled) (λ _. v) (λ _. ground (arith, v))

pub write_nr13-IsValid : (a : Apu) (byte : ℕ) → byte < 256 → IsValid a → IsValid (write_nr13 a byte)
unfolding write_nr13
write_nr13-IsValid a byte lt v =
    let v' = Bounds1.write_nr13-IsValid a.channel1 byte lt v.channel1_IsValid in
    if_cases IsValid (not a.audio_enabled) (λ _. v) (λ _. ground (arith, v))

pub write_nr14-IsValid : (a : Apu) (byte : ℕ) → IsValid a → Returns IsValid (write_nr14 a byte)
unfolding write_nr14
write_nr14-IsValid a byte v = elim (Bool-cases (not a.audio_enabled)) [
  | inl off ↦ simp off (a, refl, v)
  | inr on ↦
      let (c, e, v') = Bounds1.write_nr14-IsValid a.channel1 byte v.channel1_IsValid in
      simp (on, e) (record a { channel1 = c }, refl, ground (arith, v))
]

pub write_nr21-IsValid : (a : Apu) (byte : ℕ) → IsValid a → IsValid (write_nr21 a byte)
unfolding write_nr21
write_nr21-IsValid a byte v =
    let v' =
      Bounds2.write_nr21-IsValid a.channel2 (if a.audio_enabled then byte else bit_and byte 0x3f)
        v.channel2_IsValid in
    if_cases IsValid (not a.audio_enabled && a.cgb) (λ _. v) (λ _. ground (arith, v))

pub write_nr22-IsValid : (a : Apu) (byte : ℕ) → IsValid a → IsValid (write_nr22 a byte)
unfolding write_nr22
write_nr22-IsValid a byte v =
    let v' = Bounds2.write_nr22-IsValid a.channel2 byte v.channel2_IsValid in
    if_cases IsValid (not a.audio_enabled) (λ _. v) (λ _. ground (arith, v))

pub write_nr23-IsValid : (a : Apu) (byte : ℕ) → byte < 256 → IsValid a → IsValid (write_nr23 a byte)
unfolding write_nr23
write_nr23-IsValid a byte lt v =
    let v' = Bounds2.write_nr23-IsValid a.channel2 byte lt v.channel2_IsValid in
    if_cases IsValid (not a.audio_enabled) (λ _. v) (λ _. ground (arith, v))

pub write_nr24-IsValid : (a : Apu) (byte : ℕ) → IsValid a → Returns IsValid (write_nr24 a byte)
unfolding write_nr24
write_nr24-IsValid a byte v = elim (Bool-cases (not a.audio_enabled)) [
  | inl off ↦ simp off (a, refl, v)
  | inr on ↦
      let (c, e, v') = Bounds2.write_nr24-IsValid a.channel2 byte v.channel2_IsValid in
      simp (on, e) (record a { channel2 = c }, refl, ground (arith, v))
]

pub write_nr30-IsValid : (a : Apu) (byte : ℕ) → IsValid a → IsValid (write_nr30 a byte)
unfolding write_nr30
write_nr30-IsValid a byte v =
    let v' = Bounds3.write_nr30-IsValid a.channel3 byte v.channel3_IsValid in
    if_cases IsValid (not a.audio_enabled) (λ _. v) (λ _. ground (arith, v))

pub write_nr31-IsValid : (a : Apu) (byte : ℕ) → IsValid a → IsValid (write_nr31 a byte)
unfolding write_nr31
write_nr31-IsValid a byte v =
    let v' = Bounds3.write_nr31-IsValid a.channel3 byte v.channel3_IsValid in
    if_cases IsValid (not a.audio_enabled && a.cgb) (λ _. v) (λ _. ground (arith, v))

pub write_nr32-IsValid : (a : Apu) (byte : ℕ) → IsValid a → IsValid (write_nr32 a byte)
unfolding write_nr32
write_nr32-IsValid a byte v =
    let v' = Bounds3.write_nr32-IsValid a.channel3 byte v.channel3_IsValid in
    if_cases IsValid (not a.audio_enabled) (λ _. v) (λ _. ground (arith, v))

pub write_nr33-IsValid : (a : Apu) (byte : ℕ) → byte < 256 → IsValid a → IsValid (write_nr33 a byte)
unfolding write_nr33
write_nr33-IsValid a byte lt v =
    let v' = Bounds3.write_nr33-IsValid a.channel3 byte lt v.channel3_IsValid in
    if_cases IsValid (not a.audio_enabled) (λ _. v) (λ _. ground (arith, v))

pub write_nr34-IsValid : (a : Apu) (byte : ℕ) → IsValid a → Returns IsValid (write_nr34 a byte)
unfolding write_nr34
write_nr34-IsValid a byte v = elim (Bool-cases (not a.audio_enabled)) [
  | inl off ↦ simp off (a, refl, v)
  | inr on ↦
      let (c, e, v') = Bounds3.write_nr34-IsValid a.channel3 byte v.channel3_IsValid in
      simp (on, e) (record a { channel3 = c }, refl, ground (arith, v))
]

pub write_nr41-IsValid : (a : Apu) (byte : ℕ) → IsValid a → IsValid (write_nr41 a byte)
unfolding write_nr41
write_nr41-IsValid a byte v =
    let v' = Bounds4.write_nr41-IsValid a.channel4 byte v.channel4_IsValid in
    if_cases IsValid (not a.audio_enabled && a.cgb) (λ _. v) (λ _. ground (arith, v))

pub write_nr42-IsValid : (a : Apu) (byte : ℕ) → IsValid a → IsValid (write_nr42 a byte)
unfolding write_nr42
write_nr42-IsValid a byte v =
    let v' = Bounds4.write_nr42-IsValid a.channel4 byte v.channel4_IsValid in
    if_cases IsValid (not a.audio_enabled) (λ _. v) (λ _. ground (arith, v))

pub write_nr43-IsValid : (a : Apu) (byte : ℕ) → IsValid a → IsValid (write_nr43 a byte)
unfolding write_nr43
write_nr43-IsValid a byte v =
    let v' = Bounds4.write_nr43-IsValid a.channel4 byte v.channel4_IsValid in
    if_cases IsValid (not a.audio_enabled) (λ _. v) (λ _. ground (arith, v))

pub write_nr44-IsValid : (a : Apu) (byte : ℕ) → IsValid a → Returns IsValid (write_nr44 a byte)
unfolding write_nr44
write_nr44-IsValid a byte v = elim (Bool-cases (not a.audio_enabled)) [
  | inl off ↦ simp off (a, refl, v)
  | inr on ↦
      let (c, e, v') = Bounds4.write_nr44-IsValid a.channel4 byte v.channel4_IsValid in
      simp (on, e) (record a { channel4 = c }, refl, ground (arith, v))
]

power_off-IsValid : (a : Apu) → IsValid a → IsValid (power_off a)
unfolding power_off
power_off-IsValid a v = ground (
  arith,
  v,
  Bounds1.shutdown-IsValid a.channel1,
  Bounds2.shutdown-IsValid a.channel2,
  Bounds3.shutdown-IsValid a.channel3,
  Bounds4.shutdown-IsValid a.channel4,
)

pub write_nr50-IsValid : (a : Apu) (byte : ℕ) → IsValid a → IsValid (write_nr50 a byte)
unfolding write_nr50
write_nr50-IsValid a byte v = ground (arith, v, bit_and-mask 3 byte, bit_and-mask 3 (byte >>> 4))

pub write_nr51-IsValid : (a : Apu) (byte : ℕ) → IsValid a → IsValid (write_nr51 a byte)
unfolding write_nr51
write_nr51-IsValid a byte v = ground (arith, v)

pub write_nr52-IsValid : (a : Apu) (byte : ℕ) → IsValid a → IsValid (write_nr52 a byte)
unfolding write_nr52
write_nr52-IsValid a byte v = ground (arith, v, power_off-IsValid a v)

pub write_wave_ram-IsValid :
    (a : Apu) (address byte : ℕ)
    → byte < 256
    → IsValid a
    → Returns IsValid (write_wave_ram a address byte)
unfolding write_wave_ram
write_wave_ram-IsValid a address byte lt v =
    let (c, e, v') = Bounds3.write_wave_ram-IsValid a.channel3 address byte lt v.channel3_IsValid in
    simp e (record a { channel3 = c }, refl, ground (arith, v))
