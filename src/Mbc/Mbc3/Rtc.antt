-- ===== src/Mbc/Mbc3/Rtc.antt =====
-- `rtc_inc` as a clock: the registers count seconds through 512 days.
use native.Mathlib.Nat.{mod-eq_of_lt}
use zenith_gb.Base.{
  ℕ, ◌+◌, ◌-◌, ◌*◌, ◌/◌, ◌%◌, ◌^◌, ◌≤◌, ◌<◌, ◌≡◌, inl, inr, true, false, bit_and, bit_or, ◌<<<◌,
  ◌==◌, ◌!=◌, if◌then◌else◌, arith, u8, u16, Bool-cases,
}
use zenith_gb.Base.Bits.{bit_and-mask, bit_and-bit, bit_or-fields}
use zenith_gb.Mbc.Mbc3.{Registers, rtc_inc_reg, rtc_inc_day, rtc_inc_h, rtc_inc_m, rtc_inc}

abbrev pub day : Registers → ℕ
day r = 256 * (r.rtc_dh % 2) + r.rtc_dl

abbrev pub halt_bit : Registers → ℕ
halt_bit r = r.rtc_dh / 64 % 2

abbrev pub carry_bit : Registers → ℕ
carry_bit r = r.rtc_dh / 128

abbrev pub hours : Registers → ℕ
hours r = 24 * day r + r.rtc_h

abbrev pub minutes : Registers → ℕ
minutes r = 60 * hours r + r.rtc_m

abbrev pub seconds : Registers → ℕ
seconds r = 60 * minutes r + r.rtc_s

-- A time of day, and no bits of the last register but its three.
pub record InRange (r : Registers) : Type 0 where
  pub s_lt : r.rtc_s < 60
  pub m_lt : r.rtc_m < 60
  pub h_lt : r.rtc_h < 24
  pub dl_lt : r.rtc_dl < 256
  pub dh_lt : r.rtc_dh < 256
  pub dh_bits : r.rtc_dh / 2 % 32 ≡ 0

-- The next day counter, with the carry and halt bits above it, in numbers.
next_day_counter :
    (dh dl : ℕ)
    → dh < 256
    → dl < 256
    → dh / 2 % 32 ≡ 0
    → let x = u16 (bit_or (dh <<< 8) dl + 1) in
      (if bit_and x (1 <<< 9) != 0 then bit_or (1 <<< 15) (bit_and x (1 <<< 14)) else x)
      ≡ (if 256 * (dh % 2) + dl == 511 then 32768 + 16384 * (dh / 64 % 2) else 256 * dh + dl + 1)
next_day_counter dh dl lt lt' bits =
    let x : ℕ = u16 (bit_or (dh <<< 8) dl + 1) in
    let x_lem : x ≡ 256 * dh + dl + 1 = ground (arith, bit_or-fields 8 dh dl) in
    let bit9 = bit_and-bit 9 x in
    let bit14 = bit_and-bit 14 x in
    elim (Bool-cases (256 * (dh % 2) + dl == 511)) [
      | inl last ↦
          let over : (bit_and x (1 <<< 9) != 0) ≡ true = ground arith in
          simp (last, over) (ground (arith, bit_or-fields 15 1 (16384 * (x / 16384 % 2))))
      | inr more ↦
          let under : (bit_and x (1 <<< 9) != 0) ≡ false = ground arith in simp (more, under) x_lem
    ]

-- The day counter counts to 511 and then sets the carry, and keeps the halt bit.
rtc_inc_day_lem :
    (r : Registers)
    → InRange r
    → (InRange (rtc_inc_day r))
      × (day (rtc_inc_day r) ≡ (day r + 1) % 512)
      × (halt_bit (rtc_inc_day r) ≡ halt_bit r)
      × (carry_bit (rtc_inc_day r) ≡ (if day r == 511 then 1 else carry_bit r))
      × ((rtc_inc_day r).rtc_h ≡ r.rtc_h)
      × ((rtc_inc_day r).rtc_m ≡ r.rtc_m)
      × ((rtc_inc_day r).rtc_s ≡ r.rtc_s)
unfolding rtc_inc_day
rtc_inc_day_lem r v =
    let next = next_day_counter r.rtc_dh r.rtc_dl v.dh_lt v.dl_lt v.dh_bits in
    simp next (elim (Bool-cases (day r == 511)) [
      | inl last ↦
          simp last (ground (arith, v, bit_and-mask 8 (32768 + 16384 * (r.rtc_dh / 64 % 2))))
      | inr more ↦ simp more (ground (arith, v, bit_and-mask 8 (256 * r.rtc_dh + r.rtc_dl + 1)))
    ])

-- A register with a rollover that is in range.
rtc_inc_reg_lem :
    (k rollover reg : ℕ)
    → reg < rollover
    → rollover < 2 ^ k
    → 2 ^ k ≤ 64
    → rtc_inc_reg (2 ^ k - 1) rollover reg
      ≡ (if reg + 1 == rollover then (0, true) else (reg + 1, false))
rtc_inc_reg_lem k rollover reg lt fits small =
    let fits_k : (reg + 1) % 2 ^ k ≡ reg + 1 = mod-eq_of_lt (omega arith) in
    let fits_u8 : u8 (reg + 1) ≡ reg + 1 = omega arith in
    simp fits_u8 (ground (arith, bit_and-mask k (reg + 1)))

rtc_inc_h_lem :
    (r : Registers)
    → InRange r
    → (InRange (rtc_inc_h r))
      × (hours (rtc_inc_h r) ≡ (hours r + 1) % (512 * 24))
      × (halt_bit (rtc_inc_h r) ≡ halt_bit r)
      × (carry_bit (rtc_inc_h r) ≡ (if hours r + 1 == 512 * 24 then 1 else carry_bit r))
      × ((rtc_inc_h r).rtc_m ≡ r.rtc_m)
      × ((rtc_inc_h r).rtc_s ≡ r.rtc_s)
unfolding rtc_inc_h
rtc_inc_h_lem r v =
    simp (rtc_inc_reg_lem 5 24 r.rtc_h v.h_lt (omega arith) (omega arith))
      (elim (Bool-cases (r.rtc_h + 1 == 24)) [
        | inl last ↦ simp last (ground (arith, v, rtc_inc_day_lem (record r { rtc_h = 0 })))
        | inr more ↦ simp more (ground (arith, v))
      ])

rtc_inc_m_lem :
    (r : Registers)
    → InRange r
    → (InRange (rtc_inc_m r))
      × (minutes (rtc_inc_m r) ≡ (minutes r + 1) % (512 * 24 * 60))
      × (halt_bit (rtc_inc_m r) ≡ halt_bit r)
      × (carry_bit (rtc_inc_m r) ≡ (if minutes r + 1 == 512 * 24 * 60 then 1 else carry_bit r))
      × ((rtc_inc_m r).rtc_s ≡ r.rtc_s)
unfolding rtc_inc_m
rtc_inc_m_lem r v =
    simp (rtc_inc_reg_lem 6 60 r.rtc_m v.m_lt (omega arith) (omega arith))
      (elim (Bool-cases (r.rtc_m + 1 == 60)) [
        | inl last ↦ simp last (ground (arith, v, rtc_inc_h_lem (record r { rtc_m = 0 })))
        | inr more ↦ simp more (ground (arith, v))
      ])

-- Incrementing the seconds of a clock in range leaves it in range and one second later, modulo 512
-- days; it keeps the halt bit, and sets the carry bit when the days start over and keeps it else.
pub rtc_inc_lem :
    (r : Registers)
    → InRange r
    → (InRange (rtc_inc r))
      × (seconds (rtc_inc r) ≡ (seconds r + 1) % (512 * 24 * 60 * 60))
      × (halt_bit (rtc_inc r) ≡ halt_bit r)
      × (carry_bit (rtc_inc r) ≡ (if seconds r + 1 == 512 * 24 * 60 * 60 then 1 else carry_bit r))
unfolding rtc_inc
rtc_inc_lem r v =
    simp (rtc_inc_reg_lem 6 60 r.rtc_s v.s_lt (omega arith) (omega arith))
      (elim (Bool-cases (r.rtc_s + 1 == 60)) [
        | inl last ↦ simp last (ground (arith, v, rtc_inc_m_lem (record r { rtc_s = 0 })))
        | inr more ↦ simp more (ground (arith, v))
      ])
