-- ===== src/Mbc/Mbc3/Tests.antt =====
-- A cartridge with an MBC3 and a clock at 23:59:59 of day 511.
use zenith_gb.Base.{
  ◌+◌, ◌*◌, ◌%◌, ◌≡◌, refl, inr, true, false, [], none, some, ◌==◌, ◌>>=◌, if◌then◌else◌, arith,
}
use zenith_gb.Mbc.Mbc3.{Mbc3, Registers, get_register, read, write, rtc_inc}
use zenith_gb.Mbc.Mbc3.Rtc.{InRange, seconds, halt_bit, carry_bit, rtc_inc_lem}
use zenith_gb.Mbc.Mbc3.Clock.{run_clock, run_clock-seconds, run_clock-halted}
use zenith_gb.Mbc.Mbc3.Latch.{latch-read}

abbrev last_second : Registers
last_second = record { rtc_s = 59; rtc_m = 59; rtc_h = 23; rtc_dl = 255; rtc_dh = 1 }

last_second-InRange : InRange last_second
last_second-InRange = record {
  s_lt = omega arith;
  m_lt = omega arith;
  h_lt = omega arith;
  dl_lt = omega arith;
  dh_lt = omega arith;
  dh_bits = refl;
}

abbrev small : Mbc3
small = record {
  rom = [];
  ram = [];
  rom_bank = 1;
  ram_bank = none;
  ram_enabled = true;
  num_rom_banks = 2;
  num_ram_banks = 0;
  has_rtc = true;
  rtc_registers = last_second;
  rtc_latch = some last_second;
  rtc_select = some 2;
  rtc_latch_next = false;
  rtc_cycles_left = 1048576;
  save_path = none;
}

rtc_inc_lem_example :
    (InRange (rtc_inc last_second))
    × (seconds (rtc_inc last_second) ≡ (seconds last_second + 1) % (512 * 24 * 60 * 60))
    × (halt_bit (rtc_inc last_second) ≡ halt_bit last_second)
    × (carry_bit (rtc_inc last_second)
        ≡ (if seconds last_second + 1 == 512 * 24 * 60 * 60 then 1 else carry_bit last_second))
rtc_inc_lem_example = rtc_inc_lem last_second last_second-InRange

run_clock-seconds_example :
    (registers : Registers) × (run_clock (3 * 1048576) small
      ≡ record small { rtc_registers = registers })
    × (InRange registers)
    × (seconds registers ≡ (seconds last_second + 3) % (512 * 24 * 60 * 60))
run_clock-seconds_example = run_clock-seconds 3 small refl refl refl last_second-InRange

run_clock-halted_example :
    run_clock 5 (record small { rtc_registers = record last_second { rtc_dh = 65 } })
    ≡ record small { rtc_registers = record last_second { rtc_dh = 65 } }
run_clock-halted_example =
    run_clock-halted 5 (record small { rtc_registers = record last_second { rtc_dh = 65 } })
      (inr refl)

latch-read_example :
    (m' : Mbc3) × ((write small 0x6000 0 >>= λ m1.
    write m1 0x6000 1 >>= λ m2. write m2 0x4000 (8 + 2))
      ≡ some m')
    × (read (run_clock 4 m') 0xa000 ≡ get_register last_second 2)
latch-read_example = latch-read 4 2 0xa000 small refl refl (omega arith) (omega arith) (omega arith)
