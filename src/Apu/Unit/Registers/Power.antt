-- ===== src/Apu/Unit/Registers/Power.antt =====
-- What the sound registers read back, and what is left of a unit that is switched off.
use zenith_gb.Base.{
  ℕ, ◌<◌, ◌≡◌, refl, inl, inr, ◌⊎◌, true, false, some, bit_and, bit_or, ◌<<<◌, ◌>>>◌, u8, ◌==◌,
  ◌!=◌, of_bool, arith, all_below_sound, Bool-cases,
}
use zenith_gb.Base.Bits.{bit_and-bit}
use zenith_gb.Apu.Channel1.Bounds as Bounds1
use zenith_gb.Apu.Channel2.Bounds as Bounds2
use zenith_gb.Apu.Channel3.Bounds as Bounds3
use zenith_gb.Apu.Channel4.Bounds as Bounds4
use zenith_gb.Apu.Unit.{Apu}
use zenith_gb.Apu.Unit.Registers.{
  pan_of, pan_bits, write_nr50, write_nr51, write_nr52, power_off, read_nr50, read_nr51, read_nr52,
  write_nr10, write_nr11, write_nr12, write_nr13, write_nr14,
}

volumes_of : ℕ → ℕ
volumes_of byte =
    bit_or
      (bit_or (bit_or (bit_and byte 0x7) (u8 (bit_and (byte >>> 4) 0x7 <<< 4)))
        (of_bool (bit_and byte 0x80 != 0) <<< 7))
      (of_bool (bit_and byte 0x8 != 0) <<< 3)

volumes_back : (byte : ℕ) → byte < 256 → volumes_of byte ≡ byte
unfolding volumes_of
volumes_back byte lt = ground (arith, all_below_sound 256 (λ b. volumes_of b == b) byte refl lt)

pans_of : ℕ → ℕ
pans_of byte =
    bit_or
      (bit_or
        (bit_or (bit_or 0 (pan_bits 0 (pan_of 0 byte).pan1 (pan_of 4 byte).pan1))
          (pan_bits 1 (pan_of 0 byte).pan2 (pan_of 4 byte).pan2))
        (pan_bits 2 (pan_of 0 byte).pan3 (pan_of 4 byte).pan3))
      (pan_bits 3 (pan_of 0 byte).pan4 (pan_of 4 byte).pan4)

pans_back : (byte : ℕ) → byte < 256 → pans_of byte ≡ byte
unfolding pans_of
pans_back byte lt = ground (arith, all_below_sound 256 (λ b. pans_of b == b) byte refl lt)

-- While the unit is on, a byte that is written to NR50 or to NR51 is read back whole.
pub read-write_mixer :
    (a : Apu) (byte : ℕ)
    → a.audio_enabled ≡ true
    → byte < 256
    → (read_nr50 (write_nr50 a byte) ≡ byte) × (read_nr51 (write_nr51 a byte) ≡ byte)
unfolding read_nr50 read_nr51 write_nr50 write_nr51 volumes_of pans_of
read-write_mixer a byte on lt = (simp on (volumes_back byte lt), simp on (pans_back byte lt))

-- A write of NR52 that clears bit 7 of a unit that is on leaves the mixer at 0 and every channel
-- off, which NR52 shows. One write right after it, of the mixer or of the sweep, the envelope, the
-- frequency or the trigger of channel 1, changes nothing, and one of its length changes nothing in
-- color mode.
pub switched_off :
    (a : Apu) (byte other : ℕ)
    → a.audio_enabled ≡ true
    → byte < 128
    → let off = write_nr52 a byte in
      (read_nr50 off ≡ 0)
      × (read_nr51 off ≡ 0)
      × (read_nr52 off ≡ 0x70)
      × (write_nr50 off other ≡ off)
      × (write_nr51 off other ≡ off)
      × (write_nr10 off other ≡ off)
      × (write_nr12 off other ≡ off)
      × (write_nr13 off other ≡ off)
      × (write_nr14 off other ≡ some off)
      × ((a.cgb ≡ false) ⊎ (write_nr11 off other ≡ off))
unfolding read_nr50 read_nr51 read_nr52 write_nr50 write_nr51 write_nr52 write_nr10 write_nr11
    write_nr12 write_nr13 write_nr14 power_off
switched_off a byte other on lt =
    let low : (bit_and byte 0x80 != 0) ≡ false = ground (arith, bit_and-bit 7 byte) in
    let c1 = Bounds1.is_on-shutdown a.channel1 in
    let c2 = Bounds2.is_on-shutdown a.channel2 in
    let c3 = Bounds3.is_on-shutdown a.channel3 in
    let c4 = Bounds4.is_on-shutdown a.channel4 in
    simp (on, low, c1, c2, c3, c4)
      (
        refl,
        refl,
        refl,
        refl,
        refl,
        refl,
        refl,
        refl,
        refl,
        elim (Bool-cases a.cgb) [ inl color ↦ inr (simp color refl) | inr gray ↦ inl gray ],
      )
