-- ===== src/Apu/Channel3/Bounds.antt =====
-- The invariant of channel 3, which every operation keeps.
use native.Mathlib.Nat.{div-le_self}
use zenith_gb.Base.{
  ℕ, ◌+◌, ◌-◌, ◌*◌, ◌%◌, ◌/◌, ◌^◌, ◌≤◌, ◌<◌, ◌≡◌, refl, inl, inr, Bool, true, false, ◌&&◌, ◌||◌,
  not, List, some, bit_and, bit_or, ◌<<<◌, ◌>>>◌, u8, ◌==◌, ◌!=◌, ltb, checked_sub, ◌>>=◌,
  if◌then◌else◌, arith, Returns, Bool-cases, set?,
}
use zenith_gb.Base.Bits.{bit_and-mask, bit_and-shifted, bit_and-le, bit_or-lt_two_pow}
use zenith_gb.Apu.LengthCounter.Expiry
use zenith_gb.Apu.Channel2.Bounds.{frequency_bound}
use zenith_gb.Apu.Channel3.Bytes.{IsRam, get-byte, set-IsRam, copy_byte-IsRam}
use zenith_gb.Apu.Channel3.{
  Channel3, new, corrupt, trigger, write_nr30, write_nr31, write_nr32, write_nr33, write_nr34,
  write_wave_ram, read_wave_ram, wave_sample, next_sample, clock, length_clock, shutdown, is_on,
  last_sample_index,
}

pub record IsValid (c : Channel3) : Type 0 where
  pub counter_IsValid : Expiry.IsValid 256 c.length_counter
  pub frequency_le : c.reg_frequency ≤ 2047
  pub index_lt : c.sample_index < 32
  pub step_le : c.last_sample_step ≤ 255
  pub ram_IsRam : IsRam 16 c.wave_ram
  pub sample_le : c.sample ≤ 15

wave_sample-le :
    (reg_volume sample_index byte : ℕ) → byte < 256 → wave_sample reg_volume sample_index byte ≤ 15
unfolding wave_sample
wave_sample-le reg_volume sample_index byte lt =
    let nibble : ℕ = if sample_index % 2 == 0 then byte >>> 4 else bit_and byte 0xf in
    let small : nibble ≤ 15 = ground (arith, bit_and-mask 4 byte) in
    ground (arith, div-le_self nibble (2 ^ 4), div-le_self nibble (2 ^ (reg_volume - 1)))

corrupt-IsRam : (i : ℕ) (ram : List ℕ) → i < 32 → IsRam 16 ram → Returns (IsRam 16) (corrupt i ram)
unfolding corrupt
corrupt-IsRam i ram lt v =
    let next : ℕ = u8 (i / 2) in
    let aligned : ℕ = bit_and next 0xfc in
    let aligned_le : aligned ≤ 12 =
      ground (arith, bit_and-shifted 2 next 63, bit_and-le (next / 4) 63) in
    elim (Bool-cases (ltb next 4)) [
      | inl low ↦ simp low (copy_byte-IsRam 16 0 next ram v (omega arith) (ground arith))
      | inr high ↦
          let (r0, e0, v0) = copy_byte-IsRam 16 0 aligned ram v (omega arith) (omega arith) in
          let (r1, e1, v1) = copy_byte-IsRam 16 1 (aligned + 1) r0 v0 (omega arith) (omega arith) in
          let (r2, e2, v2) = copy_byte-IsRam 16 2 (aligned + 2) r1 v1 (omega arith) (omega arith) in
          let (r3, e3, v3) = copy_byte-IsRam 16 3 (aligned + 3) r2 v2 (omega arith) (omega arith) in
          simp (high, e0, e1, e2, e3) (r3, refl, v3)
    ]

trigger-IsValid : (c : Channel3) → IsValid c → Returns IsValid (trigger c)
unfolding trigger
trigger-IsValid c v = elim (Bool-cases (c.freq_timer == 2 && is_on c && not c.cgb)) [
  | inl reads ↦
      let (ram, e, v') = corrupt-IsRam c.sample_index c.wave_ram v.index_lt v.ram_IsRam in
      simp (reads, e) (_, refl, ground (arith, v))
  | inr quiet ↦ simp quiet (_, refl, ground (arith, v))
]

pub write_nr30-IsValid : (c : Channel3) (byte : ℕ) → IsValid c → IsValid (write_nr30 c byte)
unfolding write_nr30
write_nr30-IsValid c byte v = ground (arith, v)

pub write_nr31-IsValid : (c : Channel3) (byte : ℕ) → IsValid c → IsValid (write_nr31 c byte)
unfolding write_nr31
write_nr31-IsValid c byte v =
    ground (arith, v, Expiry.set_count-IsValid 256 c.length_counter (256 - byte))

pub write_nr32-IsValid : (c : Channel3) (byte : ℕ) → IsValid c → IsValid (write_nr32 c byte)
unfolding write_nr32
write_nr32-IsValid c byte v = ground (arith, v)

pub write_nr33-IsValid :
    (c : Channel3) (byte : ℕ) → byte < 256 → IsValid c → IsValid (write_nr33 c byte)
unfolding write_nr33
write_nr33-IsValid c byte lt v = ground (
  arith,
  v,
  bit_and-le c.reg_frequency 0x700,
  bit_or-lt_two_pow 11 (bit_and c.reg_frequency 0x700) byte,
)

write_end-IsValid :
    (c : Channel3) (silent trigger_bit : Bool)
    → IsValid c
    → Returns IsValid (
        if silent
        then some (record c { is_enabled = false })
        else if trigger_bit
        then trigger c
        else some c)
write_end-IsValid c true trigger_bit v = (record c { is_enabled = false }, refl, ground (arith, v))
write_end-IsValid c false true v = trigger-IsValid c v
write_end-IsValid c false false v = (c, refl, v)

pub write_nr34-IsValid : (c : Channel3) (byte : ℕ) → IsValid c → Returns IsValid (write_nr34 c byte)
unfolding write_nr34
write_nr34-IsValid c byte v =
    let trigger_bit : Bool = bit_and byte 0x80 != 0 in
    let (counter, written, props) =
      Expiry.write_nrx4-IsValid 256 c.length_counter trigger_bit (bit_and byte 0x40 != 0)
        v.counter_IsValid in
    let frequency : ℕ = bit_or (bit_and byte 0x7 <<< 8) (bit_and c.reg_frequency 0xff) in
    let frequency_le : frequency ≤ 2047 = frequency_bound byte c.reg_frequency in
    let c' : Channel3 = record c { reg_frequency = frequency; length_counter = counter } in
    let v' : IsValid c' = ground (arith, v, props.0) in
    simp written (write_end-IsValid c' (counter.enabled && counter.count == 0) trigger_bit v')

write_at :
    (c : Channel3) (i byte : ℕ)
    → IsValid c
    → i < 16
    → byte < 256
    → Returns IsValid (set? c.wave_ram i byte >>= λ ram. some (record c { wave_ram = ram }))
write_at c i byte v lt le =
    let (ram, e, v') = set-IsRam 16 i byte c.wave_ram v.ram_IsRam lt le in
    simp e (record c { wave_ram = ram }, refl, ground (arith, v))

pub write_wave_ram-IsValid :
    (c : Channel3) (addr byte : ℕ)
    → byte < 256
    → IsValid c
    → Returns IsValid (write_wave_ram c addr byte)
unfolding write_wave_ram
write_wave_ram-IsValid c addr byte lt v = elim (Bool-cases (is_on c)) [
  | inl on ↦ simp on (elim (Bool-cases (ltb c.last_sample_step 2 || c.cgb)) [
    | inl seen ↦ simp seen (write_at c (last_sample_index c / 2) byte v (ground (arith, v)) lt)
    | inr shut ↦ simp shut (c, refl, v)
  ])
  | inr off ↦
      simp off (write_at c (bit_and addr 0xf) byte v (ground (arith, bit_and-mask 4 addr)) lt)
]

pub read_wave_ram-total :
    (c : Channel3) (addr : ℕ) → IsValid c → Returns (λ b. b < 256) (read_wave_ram c addr)
unfolding read_wave_ram
read_wave_ram-total c addr v = elim (Bool-cases (is_on c)) [
  | inl on ↦ simp on (elim (Bool-cases (ltb c.last_sample_step 2 || c.cgb)) [
    | inl seen ↦
        simp seen (get-byte 16 (last_sample_index c / 2) c.wave_ram v.ram_IsRam (ground (arith, v)))
    | inr shut ↦ simp shut (0xff, refl, omega arith)
  ])
  | inr off ↦
      simp off (
        get-byte 16 (bit_and addr 0xf) c.wave_ram v.ram_IsRam (ground (arith, bit_and-mask 4 addr)))
]

next_sample-IsValid : (c : Channel3) → IsValid c → Returns IsValid (next_sample c)
unfolding next_sample
next_sample-IsValid c v = elim (Bool-cases (is_on c)) [
  | inl on ↦
      let (byte, found, lt) =
        get-byte 16 (c.sample_index / 2) c.wave_ram v.ram_IsRam (ground (arith, v)) in
      let le = wave_sample-le c.reg_volume c.sample_index byte lt in
      simp (on, found) (_, refl, ground (arith, v))
  | inr off ↦ simp off (record c { sample = 0 }, refl, ground (arith, v))
]

clock_end-IsValid :
    (c : Channel3)
    → IsValid c
    → Returns IsValid (
        if ltb 1 c.freq_timer
        then some (record c { freq_timer = c.freq_timer - 1 })
        else (checked_sub 2048 c.reg_frequency >>= λ p.
            next_sample (record c { freq_timer = p * 2 })))
clock_end-IsValid c v = elim (Bool-cases (ltb 1 c.freq_timer)) [
  | inl more ↦ simp more (record c { freq_timer = c.freq_timer - 1 }, refl, ground (arith, v))
  | inr last ↦
      let fits : ltb 2048 c.reg_frequency ≡ false = ground (arith, v) in
      let c' : Channel3 = record c { freq_timer = (2048 - c.reg_frequency) * 2 } in
      simp (last, fits) (next_sample-IsValid c' (ground (arith, v)))
]

pub clock-IsValid : (c : Channel3) → IsValid c → Returns IsValid (clock c)
unfolding clock
clock-IsValid c v =
    clock_end-IsValid
      (if c.last_sample_step != 0xff
        then record c { last_sample_step = c.last_sample_step + 1 }
        else c)
      (ground (arith, v))

pub length_clock-IsValid : (c : Channel3) → IsValid c → IsValid (length_clock c)
unfolding length_clock
length_clock-IsValid c v =
    ground (arith, v, Expiry.clock-IsValid 256 c.length_counter v.counter_IsValid)

pub shutdown-IsValid : (c : Channel3) → IsValid c → IsValid (shutdown c)
unfolding shutdown
shutdown-IsValid c v =
    ground (arith, v, Expiry.shutdown-IsValid 256 c.length_counter v.counter_IsValid)

pub new-IsValid : (cgb : Bool) → IsValid (new cgb)
unfolding new
new-IsValid cgb = ground (arith, Expiry.new-IsValid 256 cgb)

pub is_on-shutdown : (c : Channel3) → is_on (shutdown c) ≡ false
unfolding is_on shutdown
is_on-shutdown c = refl
