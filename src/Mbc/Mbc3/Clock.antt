-- ===== src/Mbc/Mbc3/Clock.antt =====
-- The clock input of an MBC3: its prescaler, and whole seconds.
use zenith_gb.Base.{
  ℕ, zero, suc, ◌+◌, ◌-◌, ◌*◌, ◌%◌, ◌≤◌, ◌<◌, ◌≡◌, refl, sym, ap, ◌∙◌, ◌⊎◌, true, false, ◌&&◌,
  bit_and, ◌<<<◌, ◌==◌, leb, arith,
}
use zenith_gb.Base.Bits.{bit_and-bit}
use zenith_gb.Mbc.Mbc3.{Mbc3, Registers, gb_clocks_per_second, rtc_inc, clock}
use zenith_gb.Mbc.Mbc3.Rtc.{InRange, halt_bit, seconds, rtc_inc_lem}

-- `n` clocks.
unfoldable pub run_clock : ℕ → Mbc3 → Mbc3
run_clock zero m = m
run_clock (suc n) m = run_clock n (clock m)

pub run_clock-add : (a b : ℕ) (m : Mbc3) → run_clock (a + b) m ≡ run_clock b (run_clock a m)
unfolding run_clock
run_clock-add zero b m = let e : 0 + b ≡ b = omega arith in ap (λ k. run_clock k m) e
run_clock-add (suc a) b m =
    let e : suc a + b ≡ suc (a + b) = omega arith in
    ap (λ k. run_clock k m) e ∙ run_clock-add a b (clock m)

-- The clock of the cartridge runs.
pub record IsRunning (m : Mbc3) : Type 0 where
  pub rtc : m.has_rtc ≡ true
  pub on : halt_bit m.rtc_registers ≡ 0

running :
    (m : Mbc3) → IsRunning m → (m.has_rtc && bit_and m.rtc_registers.rtc_dh (1 <<< 6) == 0) ≡ true
running m r = ground (arith, r, bit_and-bit 6 m.rtc_registers.rtc_dh)

clock-count :
    (m : Mbc3)
    → IsRunning m
    → 1 < m.rtc_cycles_left
    → clock m ≡ record m { rtc_cycles_left = m.rtc_cycles_left - 1 }
unfolding clock
clock-count m r more =
    let left : leb m.rtc_cycles_left 1 ≡ false = ground arith in simp (running m r, left)

clock-second :
    (m : Mbc3)
    → IsRunning m
    → m.rtc_cycles_left ≡ 1
    → clock m
      ≡ record m { rtc_registers = rtc_inc m.rtc_registers; rtc_cycles_left = gb_clocks_per_second }
unfolding clock
clock-second m r one = simp (running m r, one)

countdown :
    (n : ℕ) (m : Mbc3)
    → IsRunning m
    → n < m.rtc_cycles_left
    → run_clock n m ≡ record m { rtc_cycles_left = m.rtc_cycles_left - n }
unfolding run_clock
countdown zero m r lt =
    let e : m.rtc_cycles_left ≡ m.rtc_cycles_left - 0 = omega arith in
    ap (λ k. record m { rtc_cycles_left = k }) e
countdown (suc n) m r lt =
    let e : m.rtc_cycles_left - 1 - n ≡ m.rtc_cycles_left - suc n = omega arith in
    ap (run_clock n) (clock-count m r (omega arith))
    ∙ countdown n (record m { rtc_cycles_left = m.rtc_cycles_left - 1 })
        (record { rtc = r.rtc; on = r.on }) (omega arith)
    ∙ ap (λ k. record m { rtc_cycles_left = k }) e

-- The clocks that are left are a second's end: the registers are incremented once and the count
-- starts over.
pub run_clock-second :
    (m : Mbc3)
    → IsRunning m
    → 1 ≤ m.rtc_cycles_left
    → run_clock m.rtc_cycles_left m
      ≡ record m { rtc_registers = rtc_inc m.rtc_registers; rtc_cycles_left = gb_clocks_per_second }
unfolding run_clock
run_clock-second m r pos =
    let n : ℕ = m.rtc_cycles_left - 1 in
    let e : m.rtc_cycles_left ≡ n + 1 = omega arith in
    let last : Mbc3 = record m { rtc_cycles_left = m.rtc_cycles_left - n } in
    ap (λ k. run_clock k m) e
    ∙ run_clock-add n 1 m
    ∙ ap clock (countdown n m r (omega arith))
    ∙ clock-second last (record { rtc = r.rtc; on = r.on }) (omega arith)

-- The registers `n` seconds later.
unfoldable pub rtc_after : ℕ → Registers → Registers
rtc_after zero r = r
rtc_after (suc n) r = rtc_after n (rtc_inc r)

pub rtc_after-seconds :
    (n : ℕ) (r : Registers)
    → InRange r
    → (InRange (rtc_after n r))
      × (halt_bit (rtc_after n r) ≡ halt_bit r)
      × (seconds (rtc_after n r) ≡ (seconds r + n) % (512 * 24 * 60 * 60))
unfolding rtc_after
rtc_after-seconds zero r v = (v, refl, ground (arith, v))
rtc_after-seconds (suc n) r v =
    let (v', total, halt, _) = rtc_inc_lem r v in
    let (v'', halt', total') = rtc_after-seconds n (rtc_inc r) v' in
    (v'', halt' ∙ halt, omega arith)

run_clock-after :
    (n : ℕ) (m : Mbc3)
    → IsRunning m
    → m.rtc_cycles_left ≡ gb_clocks_per_second
    → InRange m.rtc_registers
    → run_clock (n * gb_clocks_per_second) m
      ≡ record m { rtc_registers = rtc_after n m.rtc_registers }
unfolding run_clock rtc_after
run_clock-after zero m r start v = refl
run_clock-after (suc n) m r start v =
    let e : suc n * gb_clocks_per_second ≡ m.rtc_cycles_left + n * gb_clocks_per_second =
      omega arith in
    let next : Mbc3 = record m {
      rtc_registers = rtc_inc m.rtc_registers;
      rtc_cycles_left = gb_clocks_per_second;
    } in
    let (v', total, halt, _) = rtc_inc_lem m.rtc_registers v in
    ap (λ k. run_clock k m) e
    ∙ run_clock-add m.rtc_cycles_left (n * gb_clocks_per_second) m
    ∙ ap (run_clock (n * gb_clocks_per_second)) (run_clock-second m r (omega arith))
    ∙ run_clock-after n next (record { rtc = r.rtc; on = halt ∙ r.on }) refl v'
    ∙ ap
        (λ k. record m {
          rtc_registers = rtc_after n (rtc_inc m.rtc_registers);
          rtc_cycles_left = k;
        })
        (sym start)

-- At the start of a second, `n` times 1048576 clocks of a running clock in range add `n` seconds
-- to it, modulo 512 days, and change nothing else of the controller.
pub run_clock-seconds :
    (n : ℕ) (m : Mbc3)
    → m.has_rtc ≡ true
    → halt_bit m.rtc_registers ≡ 0
    → m.rtc_cycles_left ≡ 1048576
    → InRange m.rtc_registers
    → (registers : Registers) × (run_clock (n * 1048576) m ≡ record m { rtc_registers = registers })
      × (InRange registers)
      × (seconds registers ≡ (seconds m.rtc_registers + n) % (512 * 24 * 60 * 60))
run_clock-seconds n m rtc on start v =
    let (v', _, total) = rtc_after-seconds n m.rtc_registers v in
    (
      rtc_after n m.rtc_registers,
      run_clock-after n m (record { rtc = rtc; on = on }) start v,
      v',
      total,
    )

-- A halted clock, or a cartridge without one, is left as it is by any number of clocks.
pub run_clock-halted :
    (n : ℕ) (m : Mbc3) → (m.has_rtc ≡ false) ⊎ (halt_bit m.rtc_registers ≡ 1) → run_clock n m ≡ m
unfolding run_clock clock
run_clock-halted zero m h = refl
run_clock-halted (suc n) m h =
    let off : (m.has_rtc && bit_and m.rtc_registers.rtc_dh (1 <<< 6) == 0) ≡ false =
      ground (arith, bit_and-bit 6 m.rtc_registers.rtc_dh) in
    simp off (run_clock-halted n m h)
