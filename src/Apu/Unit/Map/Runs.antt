-- ===== src/Apu/Unit/Map/Runs.antt =====
-- Every run of clocks and register writes goes through.
use zenith_gb.Base.{ℕ, ◌<◌, ◌≡◌, refl, Bool, true, ◌&&◌, List, [], ◌∷◌, ltb, arith, Returns}
use zenith_gb.Apu.Unit.{Apu}
use zenith_gb.Apu.Unit.NoPanic.{IsValid, clock-IsValid}
use zenith_gb.Apu.Unit.Registers.{
  write_nr10, write_nr11, write_nr12, write_nr13, write_nr21, write_nr22, write_nr23, write_nr30,
  write_nr31, write_nr32, write_nr33, write_nr41, write_nr42, write_nr43, write_nr50, write_nr51,
  write_nr52,
}
use zenith_gb.Apu.Unit.Registers.Validity.{
  write_nr10-IsValid, write_nr11-IsValid, write_nr12-IsValid, write_nr13-IsValid,
  write_nr14-IsValid, write_nr21-IsValid, write_nr22-IsValid, write_nr23-IsValid,
  write_nr24-IsValid, write_nr30-IsValid, write_nr31-IsValid, write_nr32-IsValid,
  write_nr33-IsValid, write_nr34-IsValid, write_nr41-IsValid, write_nr42-IsValid,
  write_nr43-IsValid, write_nr44-IsValid, write_nr50-IsValid, write_nr51-IsValid,
  write_nr52-IsValid, write_wave_ram-IsValid,
}
use zenith_gb.Apu.Unit.Map.{
  Register, nr10, nr11, nr12, nr13, nr14, nr21, nr22, nr23, nr24, nr30, nr31, nr32, nr33, nr34,
  nr41, nr42, nr43, nr44, nr50, nr51, nr52, wave_ram, write, Operation, clock_apu, write_to,
  perform, run,
}

abbrev pub is_byte_write : Operation → Bool
is_byte_write clock_apu = true
is_byte_write (write_to register byte) = ltb byte 256

abbrev pub are_byte_writes : List Operation → Bool
are_byte_writes [] = true
are_byte_writes (o ∷ os) = is_byte_write o && are_byte_writes os

write-IsValid :
    (a : Apu) (register : Register) (byte : ℕ)
    → byte < 256
    → IsValid a
    → Returns IsValid (write a register byte)
unfolding write
write-IsValid a nr10 byte lt v = (write_nr10 a byte, refl, write_nr10-IsValid a byte v)
write-IsValid a nr11 byte lt v = (write_nr11 a byte, refl, write_nr11-IsValid a byte v)
write-IsValid a nr12 byte lt v = (write_nr12 a byte, refl, write_nr12-IsValid a byte v)
write-IsValid a nr13 byte lt v = (write_nr13 a byte, refl, write_nr13-IsValid a byte lt v)
write-IsValid a nr14 byte lt v = write_nr14-IsValid a byte v
write-IsValid a nr21 byte lt v = (write_nr21 a byte, refl, write_nr21-IsValid a byte v)
write-IsValid a nr22 byte lt v = (write_nr22 a byte, refl, write_nr22-IsValid a byte v)
write-IsValid a nr23 byte lt v = (write_nr23 a byte, refl, write_nr23-IsValid a byte lt v)
write-IsValid a nr24 byte lt v = write_nr24-IsValid a byte v
write-IsValid a nr30 byte lt v = (write_nr30 a byte, refl, write_nr30-IsValid a byte v)
write-IsValid a nr31 byte lt v = (write_nr31 a byte, refl, write_nr31-IsValid a byte v)
write-IsValid a nr32 byte lt v = (write_nr32 a byte, refl, write_nr32-IsValid a byte v)
write-IsValid a nr33 byte lt v = (write_nr33 a byte, refl, write_nr33-IsValid a byte lt v)
write-IsValid a nr34 byte lt v = write_nr34-IsValid a byte v
write-IsValid a nr41 byte lt v = (write_nr41 a byte, refl, write_nr41-IsValid a byte v)
write-IsValid a nr42 byte lt v = (write_nr42 a byte, refl, write_nr42-IsValid a byte v)
write-IsValid a nr43 byte lt v = (write_nr43 a byte, refl, write_nr43-IsValid a byte v)
write-IsValid a nr44 byte lt v = write_nr44-IsValid a byte v
write-IsValid a nr50 byte lt v = (write_nr50 a byte, refl, write_nr50-IsValid a byte v)
write-IsValid a nr51 byte lt v = (write_nr51 a byte, refl, write_nr51-IsValid a byte v)
write-IsValid a nr52 byte lt v = (write_nr52 a byte, refl, write_nr52-IsValid a byte v)
write-IsValid a (wave_ram address) byte lt v = write_wave_ram-IsValid a address byte lt v

perform-IsValid :
    (a : Apu) (o : Operation) → is_byte_write o ≡ true → IsValid a → Returns IsValid (perform a o)
unfolding perform
perform-IsValid a clock_apu byte v = let (r, e, v') = clock-IsValid a v in simp e (r.0, refl, v')
perform-IsValid a (write_to register byte) lt v = write-IsValid a register byte (ground arith) v

-- From a unit in range, every sequence of clocks and of writes of bytes to the sound registers runs
-- through without a panic and leaves the unit in range: no counter underflows, the frequencies stay
-- within 11 bits, the volumes within 4, and every index within its table.
pub run-total :
    (operations : List Operation) (a : Apu)
    → are_byte_writes operations ≡ true
    → IsValid a
    → Returns IsValid (run operations a)
unfolding run
run-total [] a bytes v = (a, refl, v)
run-total (o ∷ os) a bytes v =
    let (b, e, v') = perform-IsValid a o (ground arith) v in
    simp e (run-total os b (ground arith) v')
