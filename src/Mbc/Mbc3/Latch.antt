-- ===== src/Mbc/Mbc3/Latch.antt =====
-- What is read of the clock of an MBC3: the latched registers.
use zenith_gb.Base.{
  ℕ, zero, suc, ◌+◌, ◌-◌, ◌≤◌, ◌<◌, ◌≡◌, refl, ◌∙◌, true, false, bit_and, ◌==◌, leb, between, none,
  some, ◌>>=◌, if◌then◌else◌, arith,
}
use zenith_gb.Mbc.Ranges.{in_ram}
use zenith_gb.Mbc.Mbc3.{
  Mbc3, Registers, get_register, set_register, rtc_register_mask, gb_clocks_per_second, clock, read,
  write,
}
use zenith_gb.Mbc.Mbc3.Clock.{run_clock}

-- Clocks change the registers and the prescaler only.
run_clock-keeps :
    (n : ℕ) (m : Mbc3)
    → let m' = run_clock n m in
      (m'.ram_enabled ≡ m.ram_enabled)
      × (m'.rtc_select ≡ m.rtc_select)
      × (m'.rtc_latch ≡ m.rtc_latch)
unfolding run_clock clock
run_clock-keeps zero m = (refl, refl, refl)
run_clock-keeps (suc n) m = ground (arith, run_clock-keeps n (clock m))

read-latched :
    (m : Mbc3) (latch : Registers) (k address : ℕ)
    → m.ram_enabled ≡ true
    → m.rtc_select ≡ some k
    → m.rtc_latch ≡ some latch
    → 0xa000 ≤ address
    → address ≤ 0xbfff
    → read m address ≡ get_register latch k
unfolding read
read-latched m latch k address on select latched lo hi =
    let (a, b, c, d) = in_ram address lo hi in simp (a, b, c, d, on, select, latched)

-- On a cartridge with a clock, a 0 and then a 1 written to 0x6000 latch the registers. With
-- register `k` selected and the RAM range enabled, every read of that range then gives the register
-- as it was at the latch, however many clocks have passed since.
pub latch-read :
    (n k address : ℕ) (m : Mbc3)
    → m.has_rtc ≡ true
    → m.ram_enabled ≡ true
    → k < 5
    → 0xa000 ≤ address
    → address ≤ 0xbfff
    → (m' : Mbc3) × ((write m 0x6000 0 >>= λ m1.
          write m1 0x6000 1 >>= λ m2. write m2 0x4000 (8 + k))
        ≡ some m')
      × (read (run_clock n m') address ≡ get_register m.rtc_registers k)
unfolding write
latch-read n k address m rtc on lt lo hi =
    let m' : Mbc3 = record m {
      rtc_latch = some m.rtc_registers;
      rtc_latch_next = false;
      ram_bank = none;
      rtc_select = some k;
    } in
    let (on', select, latched) = run_clock-keeps n m' in
    let a : leb (8 + k) 3 ≡ false = ground arith in
    let b : between 8 0xc (8 + k) ≡ true = ground arith in
    let c : 8 + k - 8 ≡ k = omega arith in
    (
      m',
      simp (rtc, a, b, c),
      read-latched (run_clock n m') m.rtc_registers k address (on' ∙ on) select latched lo hi,
    )

set_register-get :
    (k : ℕ) (r : Registers) (v mask : ℕ)
    → rtc_register_mask k ≡ some mask
    → (r' : Registers) × (set_register r k v ≡ some r') × (get_register r' k ≡ some v)
set_register-get zero r v mask h = (record r { rtc_s = v }, refl, refl)
set_register-get (suc zero) r v mask h = (record r { rtc_m = v }, refl, refl)
set_register-get (suc (suc zero)) r v mask h = (record r { rtc_h = v }, refl, refl)
set_register-get (suc (suc (suc zero))) r v mask h = (record r { rtc_dl = v }, refl, refl)
set_register-get (suc (suc (suc (suc zero)))) r v mask h = (record r { rtc_dh = v }, refl, refl)
set_register-get (suc (suc (suc (suc (suc k))))) r v mask h = absurd (ground arith)

-- After a latch, a write of a selected register that is enabled keeps the bits the register has, in
-- the clock and in its latched copy, from which it is read back; a write of the seconds starts a
-- new second.
pub set_register-read :
    (k address byte mask : ℕ) (m : Mbc3) (latch : Registers)
    → m.ram_enabled ≡ true
    → m.rtc_select ≡ some k
    → m.rtc_latch ≡ some latch
    → rtc_register_mask k ≡ some mask
    → 0xa000 ≤ address
    → address ≤ 0xbfff
    → (m' : Mbc3) × (write m address byte ≡ some m')
      × (get_register m'.rtc_registers k ≡ some (bit_and byte mask))
      × (read m' address ≡ some (bit_and byte mask))
      × (m'.rtc_cycles_left ≡ (if k == 0 then 1048576 else m.rtc_cycles_left))
unfolding write read
set_register-read k address byte mask m latch on select latched known lo hi =
    let (a, b, c, d) = in_ram address lo hi in
    let e : leb address 0x1fff ≡ false = ground arith in
    let f : leb address 0x5fff ≡ false = ground arith in
    let (registers, stored, back) =
      set_register-get k m.rtc_registers (bit_and byte mask) mask known in
    let (latch', stored', back') = set_register-get k latch (bit_and byte mask) mask known in
    let m' : Mbc3 = record m {
      rtc_registers = registers;
      rtc_latch = some latch';
      rtc_cycles_left = if k == 0 then gb_clocks_per_second else m.rtc_cycles_left;
    } in
    (
      m',
      simp (a, b, c, d, e, f, on, select, latched, known, stored, stored'),
      back,
      read-latched m' latch' k address on select refl lo hi ∙ back',
      refl,
    )
