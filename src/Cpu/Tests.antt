-- ===== src/Cpu/Tests.antt =====
-- The accumulator and flags on concrete bytes.
use zenith_gb.Base.{◌+◌, ◌-◌, ◌%◌, ◌≡◌, true, false, ◌==◌, ltb, leb, arith}
use zenith_gb.Cpu.{add_a8, sub_a8, opcode_daa}
use zenith_gb.Cpu.Flags.{af_of}
use zenith_gb.Cpu.Arithmetic.{add_a8_lem, sub_a8_lem}
use zenith_gb.Cpu.Decimal.{bcd, daa-add, daa-sub}

add_a8_lem_example :
    add_a8 (af_of 0xf8 false true false false 0) 0x08 1
    ≡ af_of
        ((0xf8 + 0x08 + 1) % 256)
        ((0xf8 + 0x08 + 1) % 256 == 0)
        false
        (ltb 15 (0xf8 % 16 + 0x08 % 16 + 1))
        (ltb 255 (0xf8 + 0x08 + 1))
        0
add_a8_lem_example = add_a8_lem 0xf8 0x08 1 false true false false 0 (omega arith) (omega arith)

sub_a8_lem_example :
    sub_a8 (af_of 0x10 false false false true 0) 0x0f 1
    ≡ af_of
        ((0x10 + 512 - 0x0f - 1) % 256)
        (0x10 == (0x0f + 1) % 256)
        true
        (ltb (0x10 % 16) (0x0f % 16 + 1))
        (ltb 0x10 (0x0f + 1))
        0
sub_a8_lem_example =
    sub_a8_lem 0x10 0x0f 1 false false false true 0 (omega arith) (omega arith) (omega arith)
      (omega arith)

daa-add_example :
    opcode_daa (add_a8 (af_of (bcd 58) false false false false 0) (bcd 67) 0)
    ≡ af_of (bcd ((58 + 67) % 100)) ((58 + 67) % 100 == 0) false false (leb 100 (58 + 67)) 0
daa-add_example = daa-add 58 67 false false false false 0 (omega arith) (omega arith) (omega arith)

daa-sub_example :
    opcode_daa (sub_a8 (af_of (bcd 12) false false false false 0) (bcd 67) 0)
    ≡ af_of (bcd ((12 + 100 - 67) % 100)) ((12 + 100 - 67) % 100 == 0) true false (ltb 12 67) 0
daa-sub_example = daa-sub 12 67 false false false false 0 (omega arith) (omega arith) (omega arith)
