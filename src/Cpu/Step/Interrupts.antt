-- ===== src/Cpu/Step/Interrupts.antt =====
-- Interrupts: which is served, and what that costs.
use zenith_gb.Base.{
  ℕ, ◌+◌, ◌-◌, ◌*◌, ◌/◌, ◌%◌, ◌^◌, ◌<◌, ◌≡◌, sym, ◌∙◌, Bool, false, not, Option, none, some,
  bit_and, ◌==◌, of_bool, checked_sub, arith, if_cases, Returns, >>=-Returns, Returns-some,
}
use zenith_gb.Base.Bits.{bit_and-bit}
use zenith_gb.Util.Bytes.{get_high-lt, get_low-lt}
use zenith_gb.Cpu.Bus.{Bus}
use zenith_gb.Cpu.Registers.{Cpu}
use zenith_gb.Cpu.Registers.Bounds.{IsReady, IsReady-pc}
use zenith_gb.Cpu.Access.Timing.{Ran, clock-Ran, push-Ran, fetch-Ran}
use zenith_gb.Cpu.Step.{
  interrupt_bits, find_active, enter_handler, handle_interrupt, service, check_interrupts,
}

-- What holds of no interrupt and of each of the five holds of the one that is found.
found_cases {ℓ} :
    (P : Option ℕ → Type ℓ) (active : ℕ)
    → P none
    → P (some 0)
    → P (some 1)
    → P (some 2)
    → P (some 3)
    → P (some 4)
    → P (find_active active interrupt_bits 0)
found_cases P active n p0 p1 p2 p3 p4 =
    if_cases P (bit_and active 1 == 0)
      (λ e.
        if_cases P (bit_and active 2 == 0)
          (λ e.
            if_cases P (bit_and active 4 == 0)
              (λ e.
                if_cases P (bit_and active 8 == 0)
                  (λ e. if_cases P (bit_and active 16 == 0) (λ e. n) (λ e. p4)) (λ e. p3))
              (λ e. p2))
          (λ e. p1))
      (λ e. p0)

-- An interrupt that is found is one of the five and active, and none of higher priority is active.
pub find_active_lem :
    (active i : ℕ)
    → find_active active interrupt_bits 0 ≡ some i
    → (i < 5) × (active / 2 ^ i % 2 ≡ 1) × (active % 2 ^ i ≡ 0)
find_active_lem active i =
    let b0 = bit_and-bit 0 active in
    let b1 = bit_and-bit 1 active in
    let b2 = bit_and-bit 2 active in
    let b3 = bit_and-bit 3 active in
    let b4 = bit_and-bit 4 active in
    if_cases P (bit_and active 1 == 0)
      (λ e0.
        if_cases P (bit_and active 2 == 0)
          (λ e1.
            if_cases P (bit_and active 4 == 0)
              (λ e2.
                if_cases P (bit_and active 8 == 0)
                  (λ e3.
                    if_cases P (bit_and active 16 == 0) (λ e4 f. absurd (ground arith))
                      (λ e4 f. let q : 4 ≡ i = ground arith in simp (sym q) (ground arith)))
                  (λ e3 f. let q : 3 ≡ i = ground arith in simp (sym q) (ground arith)))
              (λ e2 f. let q : 2 ≡ i = ground arith in simp (sym q) (ground arith)))
          (λ e1 f. let q : 1 ≡ i = ground arith in simp (sym q) (ground arith)))
      (λ e0 f. let q : 0 ≡ i = ground arith in simp (sym q) (ground arith))
  where
    P : Option ℕ → Type 0
    P o = o ≡ some i → (i < 5) × (active / 2 ^ i % 2 ≡ 1) × (active % 2 ^ i ≡ 0)

module _ {S : Type 0} (bus : Bus S) (start : S) (n : ℕ) (cpu : Cpu) (soc : S)
    (ran : Ran bus start n cpu soc) where
  served :
      (vec bits : ℕ)
      → vec < 65536
      → Ran bus start n (record cpu { reg_pc = vec }) (bus.clear_interrupt bits soc)
  served vec bits lt =
      let (valid, c) = bus.clear_interrupt_lem bits soc ran.1 in
      (IsReady-pc cpu vec lt ran.0, valid, c ∙ ran.2)

  enter_handler-Ran :
      (active : ℕ)
      → Returns
          (λ (p : Cpu × S). Ran bus start n p.0 p.1)
          (enter_handler bus (find_active active interrupt_bits 0) cpu soc)
  enter_handler-Ran active =
      found_cases
        (λ o. Returns (λ (p : Cpu × S). Ran bus start n p.0 p.1) (enter_handler bus o cpu soc))
        active (Returns-some (IsReady-pc cpu 0 (omega arith) ran.0, ran.1, ran.2))
        (Returns-some (served 0x40 1 (omega arith))) (Returns-some (served 0x48 2 (omega arith)))
        (Returns-some (served 0x50 4 (omega arith))) (Returns-some (served 0x58 8 (omega arith)))
        (Returns-some (served 0x60 16 (omega arith)))

  pc_before : 0 < cpu.reg_pc → Returns (λ w. w < 65536) (checked_sub cpu.reg_pc 1)
  pc_before pos = (cpu.reg_pc - 1, ground arith, omega (arith, ran.0.6))

module _ {S : Type 0} (bus : Bus S) (start : S) (n : ℕ) (cpu : Cpu) (soc : S)
    (ran : Ran bus start n cpu soc) where
  -- Serving an interrupt takes five cycles.
  pub handle_interrupt-Ran :
      0 < cpu.reg_pc
      → Returns
          (λ (p : Cpu × S). Ran bus start (n + 1 + 1 + 1 + 1 + 1) p.0 p.1)
          (handle_interrupt bus cpu soc)
  unfolding handle_interrupt
  handle_interrupt-Ran pos = >>=-Returns (clock-Ran bus start n cpu soc ran) (λ s1 r1.
      >>=-Returns (clock-Ran bus start (n + 1) cpu s1 r1) (λ s2 r2.
        >>=-Returns (pc_before bus start n cpu soc ran pos) (λ w lt.
          >>=-Returns (push-Ran bus start (n + 1 + 1) cpu s2 r2 _ (get_high-lt w)) (λ p r3.
            >>=-Returns (push-Ran bus start (n + 1 + 1 + 1) p.0 p.1 r3 _ (get_low-lt w)) (λ q r4.
              >>=-Returns
                (enter_handler-Ran bus start (n + 1 + 1 + 1 + 1) q.0 q.1 r4
                  (bus.active_interrupts p.1))
                (λ u r5.
                  fetch-Ran bus start (n + 1 + 1 + 1 + 1) (record u.0 { ime = false }) u.1 r5))))))

-- With registers within their widths, a valid bus and PC not 0, looking for interrupts returns,
-- keeps all that, and takes five cycles if an interrupt is served and none if not.
pub check_interrupts-Ran :
    {S : Type 0} (bus : Bus S) (cpu : Cpu) (soc : S)
    → IsReady cpu
    → bus.IsValid soc
    → 0 < cpu.reg_pc
    → Returns
        (λ (p : Bool × Cpu × S). Ran bus soc (of_bool p.0 * 5) p.1 p.2)
        (check_interrupts bus cpu soc)
unfolding check_interrupts
check_interrupts-Ran {S} bus cpu soc ready valid pos =
    let (valid1, c) = bus.set_cpu_halted_lem false soc valid in
    let soc1 = bus.set_cpu_halted false soc in
    let woken = record cpu { halted = false } in
    let ran : Ran bus soc 0 woken soc1 = (ready, valid1, omega (arith, c)) in
    let handled =
      >>=-Returns (handle_interrupt-Ran bus soc 0 woken soc1 ran pos) (λ p r. Returns-some r) in
    if_cases P (bus.active_interrupts soc == 0) (λ e. Returns-some (ready, valid, omega arith))
      (λ e.
        if_cases P (not cpu.ime) (λ e. Returns-some ran)
          (λ e.
            found_cases (λ o. P (service bus o woken soc1)) (bus.active_interrupts soc1)
              (Returns-some ran) handled handled handled handled handled))
  where
    P : Option (Bool × Cpu × S) → Type 0
    P = Returns (λ (p : Bool × Cpu × S). Ran bus soc (of_bool p.0 * 5) p.1 p.2)
