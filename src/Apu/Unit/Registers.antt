-- ===== src/Apu/Unit/Registers.antt =====
-- src/apu/apu.rs: the registers NR10-NR52 and the wave RAM.
pub mod Validity
pub mod Power
use zenith_gb.Base.{
  ℕ, ◌+◌, ◌*◌, ◌%◌, ◌/◌, ◌^◌, Bool, true, false, ◌&&◌, ◌||◌, not, Option, none, some, bit_and,
  bit_or, ◌<<<◌, ◌>>>◌, u8, ◌==◌, ◌!=◌, of_bool, ◌>>=◌, if◌then◌else◌,
}
use zenith_gb.Apu.Channel1
use zenith_gb.Apu.Channel2
use zenith_gb.Apu.Channel3
use zenith_gb.Apu.Channel4
use zenith_gb.Apu.Unit.{Apu, Pan}

pub write_nr50 : Apu → ℕ → Apu
write_nr50 a byte = if not a.audio_enabled then a else record a {
  right_vol = bit_and byte 0x7;
  right_vin = bit_and byte 0x8 != 0;
  left_vol = bit_and (byte >>> 4) 0x7;
  left_vin = bit_and byte 0x80 != 0;
}

-- The loop over `i` of `write_nr51`, for the side whose bits start at `first`.
abbrev pub pan_of : (first byte : ℕ) → Pan
pan_of first byte = record {
  pan1 = bit_and (byte >>> first) 0x1 != 0;
  pan2 = bit_and (byte >>> (first + 1)) 0x1 != 0;
  pan3 = bit_and (byte >>> (first + 2)) 0x1 != 0;
  pan4 = bit_and (byte >>> (first + 3)) 0x1 != 0;
}

pub write_nr51 : Apu → ℕ → Apu
write_nr51 a byte =
    if not a.audio_enabled
    then a
    else record a { right_pan = pan_of 0 byte; left_pan = pan_of 4 byte }

abbrev pub no_pan : Pan
no_pan = record { pan1 = false; pan2 = false; pan3 = false; pan4 = false }

-- `(true, false)` of `write_nr52`.
pub power_off : Apu → Apu
power_off a = record a {
  left_vin = false;
  right_vin = false;
  left_vol = 0;
  right_vol = 0;
  left_pan = no_pan;
  right_pan = no_pan;
  channel1 = Channel1.shutdown a.channel1;
  channel2 = Channel2.shutdown a.channel2;
  channel3 = Channel3.shutdown a.channel3;
  channel4 = Channel4.shutdown a.channel4;
}

pub write_nr52 : Apu → ℕ → Apu
write_nr52 a byte =
    let enable_bit = bit_and byte 0x80 != 0 in
    let a' =
      if a.audio_enabled && not enable_bit
      then power_off a
      else if not a.audio_enabled && enable_bit
      then record a { frame_sequencer_step = 0 }
      else a in
    record a' { audio_enabled = enable_bit }

pub read_nr50 : Apu → ℕ
read_nr50 a =
    bit_or (bit_or (bit_or a.right_vol (u8 (a.left_vol <<< 4))) (of_bool a.left_vin <<< 7))
      (of_bool a.right_vin <<< 3)

-- The bits of a channel at `i`.
abbrev pub pan_bits : ℕ → (right left : Bool) → ℕ
pan_bits i right left = bit_or (if right then 1 <<< i else 0) (if left then 1 <<< (i + 4) else 0)

pub read_nr51 : Apu → ℕ
read_nr51 a =
    bit_or
      (bit_or
        (bit_or (bit_or 0 (pan_bits 0 a.right_pan.pan1 a.left_pan.pan1))
          (pan_bits 1 a.right_pan.pan2 a.left_pan.pan2))
        (pan_bits 2 a.right_pan.pan3 a.left_pan.pan3))
      (pan_bits 3 a.right_pan.pan4 a.left_pan.pan4)

pub read_nr52 : Apu → ℕ
read_nr52 a =
    bit_or
      (bit_or (of_bool a.audio_enabled <<< 7) (
        bit_or
          (bit_or
            (bit_or (bit_or 0 (of_bool (Channel1.is_on a.channel1) * (1 <<< 0)))
              (of_bool (Channel2.is_on a.channel2) * (1 <<< 1)))
            (of_bool (Channel3.is_on a.channel3) * (1 <<< 2)))
          (of_bool (Channel4.is_on a.channel4) * (1 <<< 3))))
      0x70

pub write_nr10 : Apu → ℕ → Apu
write_nr10 a byte =
    if not a.audio_enabled then a else record a { channel1 = Channel1.write_nr10 a.channel1 byte }

pub write_nr11 : Apu → ℕ → Apu
write_nr11 a byte = if not a.audio_enabled && a.cgb then a else record a {
  channel1 = Channel1.write_nr11 a.channel1 (if a.audio_enabled then byte else bit_and byte 0x3f);
}

pub write_nr12 : Apu → ℕ → Apu
write_nr12 a byte =
    if not a.audio_enabled then a else record a { channel1 = Channel1.write_nr12 a.channel1 byte }

pub write_nr13 : Apu → ℕ → Apu
write_nr13 a byte =
    if not a.audio_enabled then a else record a { channel1 = Channel1.write_nr13 a.channel1 byte }

pub write_nr14 : Apu → ℕ → Option Apu
write_nr14 a byte =
    if not a.audio_enabled
    then some a
    else (Channel1.write_nr14 a.channel1 byte >>= λ c. some (record a { channel1 = c }))

pub write_nr21 : Apu → ℕ → Apu
write_nr21 a byte = if not a.audio_enabled && a.cgb then a else record a {
  channel2 = Channel2.write_nr21 a.channel2 (if a.audio_enabled then byte else bit_and byte 0x3f);
}

pub write_nr22 : Apu → ℕ → Apu
write_nr22 a byte =
    if not a.audio_enabled then a else record a { channel2 = Channel2.write_nr22 a.channel2 byte }

pub write_nr23 : Apu → ℕ → Apu
write_nr23 a byte =
    if not a.audio_enabled then a else record a { channel2 = Channel2.write_nr23 a.channel2 byte }

pub write_nr24 : Apu → ℕ → Option Apu
write_nr24 a byte =
    if not a.audio_enabled
    then some a
    else (Channel2.write_nr24 a.channel2 byte >>= λ c. some (record a { channel2 = c }))

pub write_wave_ram : Apu → (address byte : ℕ) → Option Apu
write_wave_ram a address byte =
    Channel3.write_wave_ram a.channel3 address byte >>= λ c. some (record a { channel3 = c })

pub write_nr30 : Apu → ℕ → Apu
write_nr30 a byte =
    if not a.audio_enabled then a else record a { channel3 = Channel3.write_nr30 a.channel3 byte }

pub write_nr31 : Apu → ℕ → Apu
write_nr31 a byte =
    if not a.audio_enabled && a.cgb
    then a
    else record a { channel3 = Channel3.write_nr31 a.channel3 byte }

pub write_nr32 : Apu → ℕ → Apu
write_nr32 a byte =
    if not a.audio_enabled then a else record a { channel3 = Channel3.write_nr32 a.channel3 byte }

pub write_nr33 : Apu → ℕ → Apu
write_nr33 a byte =
    if not a.audio_enabled then a else record a { channel3 = Channel3.write_nr33 a.channel3 byte }

pub write_nr34 : Apu → ℕ → Option Apu
write_nr34 a byte =
    if not a.audio_enabled
    then some a
    else (Channel3.write_nr34 a.channel3 byte >>= λ c. some (record a { channel3 = c }))

pub write_nr41 : Apu → ℕ → Apu
write_nr41 a byte =
    if not a.audio_enabled && a.cgb
    then a
    else record a { channel4 = Channel4.write_nr41 a.channel4 byte }

pub write_nr42 : Apu → ℕ → Apu
write_nr42 a byte =
    if not a.audio_enabled then a else record a { channel4 = Channel4.write_nr42 a.channel4 byte }

pub write_nr43 : Apu → ℕ → Apu
write_nr43 a byte =
    if not a.audio_enabled then a else record a { channel4 = Channel4.write_nr43 a.channel4 byte }

pub write_nr44 : Apu → ℕ → Option Apu
write_nr44 a byte =
    if not a.audio_enabled
    then some a
    else (Channel4.write_nr44 a.channel4 byte >>= λ c. some (record a { channel4 = c }))

-- `read_nr13`, `read_nr23`, `read_nr31`, `read_nr33` and `read_nr41`: write-only registers.
pub read_write_only : ℕ
read_write_only = 0xff
