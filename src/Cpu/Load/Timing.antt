-- ===== src/Cpu/Load/Timing.antt =====
-- Every load takes its cycles, and keeps the processor and the bus in order.
use zenith_gb.Base.{
  ℕ, ◌+◌, ◌%◌, ◌≡◌, true, false, bit_and, ◌>>>◌, ◌==◌, arith, ◌||◌, Returns, >>=-Returns,
  Returns-some, debug_assert-Returns,
}
use zenith_gb.Util.{value}
use zenith_gb.Cpu.Bus.{Bus}
use zenith_gb.Cpu.Registers.{Cpu}
use zenith_gb.Cpu.Registers.Bounds.{
  IsReady-af, IsReady-hl, IsReady-sp, set_znhc-lt, get_reg8-lt, dec_reg16-lt, inc_reg16-lt,
  read_r8_lem, write_r8_lem, write_r16_lem,
}
use zenith_gb.Cpu.Access.Timing.{Ran, clock-Ran, read-Ran, write-Ran, consume-Ran}
use zenith_gb.Cpu.Load.{
  sign_extend, set_a, sp_flags, is_ld_r8_hladdr, is_hladdr_r8, opcode_ld_r8_imm8,
  opcode_ld_a_bcaddr, opcode_ld_a_deaddr, opcode_ld_a_hliaddr, opcode_ld_a_hldaddr,
  opcode_ld_r8_hladdr, opcode_ld_a_imm16addr, opcode_ld_hl_spi, opcode_ld_sp_hl,
  opcode_ld_r16_imm16, opcode_ld_hliaddr_a, opcode_ld_hldaddr_a, opcode_ld_bcaddr_a,
  opcode_ld_deaddr_a, opcode_hladdr_r8, opcode_hladdr_imm8, opcode_r8addr_a, opcode_imm16addr_a,
  opcode_r8_c, opcode_ldh_r8addr_a, opcode_ldh_a_r8addr,
}
use zenith_gb.Cpu.Load.Bounds.{
  get_a-lt, value-lt, high_page-lt, low_bits-lt, mid_bits-lt, pair_bits-lt, ne_eq, set_a-IsReady,
}

module _ {S : Type 0} (bus : Bus S) (start : S) (n : ℕ) (cpu : Cpu) (soc : S)
    (ran : Ran bus start n cpu soc) (opcode : ℕ) where
  open bus use {clock, clock_read, clock_write}

  pub ld_r8_imm8-Ran :
      (bit_and (opcode >>> 3) 0x7 == 6) ≡ false
      → Returns
          (λ (p : Cpu × S). Ran bus start (n + 1) p.0 p.1)
          (opcode_ld_r8_imm8 bus opcode cpu soc)
  unfolding opcode_ld_r8_imm8
  ld_r8_imm8-Ran dst = >>=-Returns (consume-Ran bus start n cpu soc ran) (λ p q.
      debug_assert-Returns (ne_eq _ 6 dst) (
        >>=-Returns (write_r8_lem _ p.0 p.1 (mid_bits-lt opcode) dst q.0 q.1.0)
          (λ c ready. Returns-some (ready, q.1.1, q.1.2))))

  pub ld_a_bcaddr-Ran :
      (opcode == 0x0a) ≡ true
      → Returns
          (λ (p : Cpu × S). Ran bus start (n + 1) p.0 p.1)
          (opcode_ld_a_bcaddr bus opcode cpu soc)
  unfolding opcode_ld_a_bcaddr
  ld_a_bcaddr-Ran e = debug_assert-Returns e (
      >>=-Returns (read-Ran bus start n cpu soc ran cpu.reg_bc ran.0.2)
        (λ p q. Returns-some (set_a-IsReady p.0 cpu q.0 q.1.0, q.1.1, q.1.2)))

  pub ld_a_deaddr-Ran :
      (opcode == 0x1a) ≡ true
      → Returns
          (λ (p : Cpu × S). Ran bus start (n + 1) p.0 p.1)
          (opcode_ld_a_deaddr bus opcode cpu soc)
  unfolding opcode_ld_a_deaddr
  ld_a_deaddr-Ran e = debug_assert-Returns e (
      >>=-Returns (read-Ran bus start n cpu soc ran cpu.reg_de ran.0.3)
        (λ p q. Returns-some (set_a-IsReady p.0 cpu q.0 q.1.0, q.1.1, q.1.2)))

  pub ld_a_hliaddr-Ran :
      (opcode == 0x2a) ≡ true
      → Returns
          (λ (p : Cpu × S). Ran bus start (n + 1) p.0 p.1)
          (opcode_ld_a_hliaddr bus opcode cpu soc)
  unfolding opcode_ld_a_hliaddr
  ld_a_hliaddr-Ran e = debug_assert-Returns e (
      >>=-Returns (read-Ran bus start n cpu soc ran cpu.reg_hl ran.0.4) (λ p q. Returns-some (
        IsReady-hl (set_a p.0 cpu) _ (inc_reg16-lt cpu.reg_hl) (set_a-IsReady p.0 cpu q.0 q.1.0),
        q.1.1,
        q.1.2,
      )))

  pub ld_a_hldaddr-Ran :
      (opcode == 0x3a) ≡ true
      → Returns
          (λ (p : Cpu × S). Ran bus start (n + 1) p.0 p.1)
          (opcode_ld_a_hldaddr bus opcode cpu soc)
  unfolding opcode_ld_a_hldaddr
  ld_a_hldaddr-Ran e = debug_assert-Returns e (
      >>=-Returns (read-Ran bus start n cpu soc ran cpu.reg_hl ran.0.4) (λ p q. Returns-some (
        IsReady-hl (set_a p.0 cpu) _ (dec_reg16-lt cpu.reg_hl) (set_a-IsReady p.0 cpu q.0 q.1.0),
        q.1.1,
        q.1.2,
      )))

  pub ld_r8_hladdr-Ran :
      is_ld_r8_hladdr opcode ≡ true
      → (bit_and opcode 0x7 == 6) ≡ true
      → (bit_and (opcode >>> 3) 0x7 == 6) ≡ false
      → Returns
          (λ (p : Cpu × S). Ran bus start (n + 1) p.0 p.1)
          (opcode_ld_r8_hladdr bus opcode cpu soc)
  unfolding opcode_ld_r8_hladdr
  ld_r8_hladdr-Ran e src dst = debug_assert-Returns e (
      debug_assert-Returns src (
        >>=-Returns (read-Ran bus start n cpu soc ran cpu.reg_hl ran.0.4) (λ p q.
          debug_assert-Returns (ne_eq _ 6 dst) (
            >>=-Returns (write_r8_lem _ p.0 cpu (mid_bits-lt opcode) dst q.0 q.1.0)
              (λ c ready. Returns-some (ready, q.1.1, q.1.2))))))

  pub ld_a_imm16addr-Ran :
      (opcode == 0xfa) ≡ true
      → Returns
          (λ (p : Cpu × S). Ran bus start (n + 1 + 1 + 1) p.0 p.1)
          (opcode_ld_a_imm16addr bus opcode cpu soc)
  unfolding opcode_ld_a_imm16addr
  ld_a_imm16addr-Ran e = debug_assert-Returns e (
      >>=-Returns (consume-Ran bus start n cpu soc ran) (λ l ql.
        >>=-Returns (consume-Ran bus start (n + 1) l.1 l.2 ql.1) (λ m qm.
          >>=-Returns
            (read-Ran bus start (n + 1 + 1) m.1 m.2 qm.1 (value m.0 l.0)
              (value-lt m.0 l.0 qm.0 ql.0))
            (λ p q. Returns-some (set_a-IsReady p.0 m.1 q.0 q.1.0, q.1.1, q.1.2)))))

  pub ld_hl_spi-Ran :
      (opcode == 0xf8) ≡ true
      → Returns
          (λ (p : Cpu × S). Ran bus start (n + 1 + 1) p.0 p.1)
          (opcode_ld_hl_spi bus opcode cpu soc)
  unfolding opcode_ld_hl_spi
  ld_hl_spi-Ran e = debug_assert-Returns e (
      >>=-Returns (consume-Ran bus start n cpu soc ran) (λ p q.
        let af_lt = IsReady-af p.1 _ (set_znhc-lt _ _ _ _ p.1.reg_af q.1.0.1) q.1.0 in
        let cpu1 = record p.1 {
          reg_af = sp_flags p.1.reg_sp p.0 ((p.1.reg_sp + sign_extend p.0) % 65536) p.1.reg_af;
        } in
        let hl_lt = IsReady-hl cpu1 ((p.1.reg_sp + sign_extend p.0) % 65536) (omega arith) af_lt in
        >>=-Returns
          (clock-Ran bus start (n + 1)
            (record cpu1 { reg_hl = (p.1.reg_sp + sign_extend p.0) % 65536 }) p.2
            (hl_lt, q.1.1, q.1.2))
          (λ t r. Returns-some r)))

  pub ld_sp_hl-Ran :
      (opcode == 0xf9) ≡ true
      → Returns
          (λ (p : Cpu × S). Ran bus start (n + 1) p.0 p.1)
          (opcode_ld_sp_hl bus opcode cpu soc)
  unfolding opcode_ld_sp_hl
  ld_sp_hl-Ran e = debug_assert-Returns e (
      >>=-Returns
        (clock-Ran bus start n (record cpu { reg_sp = cpu.reg_hl }) soc
          (IsReady-sp cpu cpu.reg_hl ran.0.4 ran.0, ran.1, ran.2))
        (λ t r. Returns-some r))

  pub ld_r16_imm16-Ran :
      (opcode == 0x01 || opcode == 0x11 || opcode == 0x21 || opcode == 0x31) ≡ true
      → Returns
          (λ (p : Cpu × S). Ran bus start (n + 1 + 1) p.0 p.1)
          (opcode_ld_r16_imm16 bus opcode cpu soc)
  unfolding opcode_ld_r16_imm16
  ld_r16_imm16-Ran e = debug_assert-Returns e (
      >>=-Returns (consume-Ran bus start n cpu soc ran) (λ l ql.
        >>=-Returns (consume-Ran bus start (n + 1) l.1 l.2 ql.1) (λ m qm.
          >>=-Returns
            (write_r16_lem _ _ m.1 (pair_bits-lt opcode) (value-lt m.0 l.0 qm.0 ql.0) qm.1.0)
            (λ c ready. Returns-some (ready, qm.1.1, qm.1.2)))))

  pub ld_hliaddr_a-Ran :
      (opcode == 0x22) ≡ true
      → Returns
          (λ (p : Cpu × S). Ran bus start (n + 1) p.0 p.1)
          (opcode_ld_hliaddr_a bus opcode cpu soc)
  unfolding opcode_ld_hliaddr_a
  ld_hliaddr_a-Ran e = debug_assert-Returns e (
      >>=-Returns (write-Ran bus start n cpu soc ran cpu.reg_hl _ ran.0.4 (get_a-lt cpu.reg_af))
        (λ t r. Returns-some (IsReady-hl cpu _ (inc_reg16-lt cpu.reg_hl) r.0, r.1, r.2)))

  pub ld_hldaddr_a-Ran :
      (opcode == 0x32) ≡ true
      → Returns
          (λ (p : Cpu × S). Ran bus start (n + 1) p.0 p.1)
          (opcode_ld_hldaddr_a bus opcode cpu soc)
  unfolding opcode_ld_hldaddr_a
  ld_hldaddr_a-Ran e = debug_assert-Returns e (
      >>=-Returns (write-Ran bus start n cpu soc ran cpu.reg_hl _ ran.0.4 (get_a-lt cpu.reg_af))
        (λ t r. Returns-some (IsReady-hl cpu _ (dec_reg16-lt cpu.reg_hl) r.0, r.1, r.2)))

  pub ld_bcaddr_a-Ran :
      (opcode == 0x02) ≡ true
      → Returns
          (λ (p : Cpu × S). Ran bus start (n + 1) p.0 p.1)
          (opcode_ld_bcaddr_a bus opcode cpu soc)
  unfolding opcode_ld_bcaddr_a
  ld_bcaddr_a-Ran e = debug_assert-Returns e (
      >>=-Returns (write-Ran bus start n cpu soc ran cpu.reg_bc _ ran.0.2 (get_a-lt cpu.reg_af))
        (λ t r. Returns-some r))

  pub ld_deaddr_a-Ran :
      (opcode == 0x12) ≡ true
      → Returns
          (λ (p : Cpu × S). Ran bus start (n + 1) p.0 p.1)
          (opcode_ld_deaddr_a bus opcode cpu soc)
  unfolding opcode_ld_deaddr_a
  ld_deaddr_a-Ran e = debug_assert-Returns e (
      >>=-Returns (write-Ran bus start n cpu soc ran cpu.reg_de _ ran.0.3 (get_a-lt cpu.reg_af))
        (λ t r. Returns-some r))

  pub hladdr_r8-Ran :
      is_hladdr_r8 opcode ≡ true
      → (bit_and (opcode >>> 3) 0x7 == 6) ≡ true
      → (bit_and opcode 0x7 == 6) ≡ false
      → Returns
          (λ (p : Cpu × S). Ran bus start (n + 1) p.0 p.1)
          (opcode_hladdr_r8 bus opcode cpu soc)
  unfolding opcode_hladdr_r8
  hladdr_r8-Ran e dst src = debug_assert-Returns e (
      >>=-Returns (read_r8_lem (bit_and opcode 0x7) cpu (low_bits-lt opcode) src) (λ val lt.
        debug_assert-Returns dst (
          debug_assert-Returns (ne_eq _ 6 src) (
            >>=-Returns (write-Ran bus start n cpu soc ran cpu.reg_hl val ran.0.4 lt)
              (λ t r. Returns-some r)))))

  pub hladdr_imm8-Ran :
      (opcode == 0x36) ≡ true
      → Returns
          (λ (p : Cpu × S). Ran bus start (n + 1 + 1) p.0 p.1)
          (opcode_hladdr_imm8 bus opcode cpu soc)
  unfolding opcode_hladdr_imm8
  hladdr_imm8-Ran e = debug_assert-Returns e (
      >>=-Returns (consume-Ran bus start n cpu soc ran) (λ p q.
        >>=-Returns (write-Ran bus start (n + 1) p.1 p.2 q.1 p.1.reg_hl p.0 q.1.0.4 q.0)
          (λ t r. Returns-some r)))

  pub r8addr_a-Ran :
      (opcode == 0xe2) ≡ true
      → Returns
          (λ (p : Cpu × S). Ran bus start (n + 1) p.0 p.1)
          (opcode_r8addr_a bus opcode cpu soc)
  unfolding opcode_r8addr_a
  r8addr_a-Ran e = debug_assert-Returns e (
      >>=-Returns
        (write-Ran bus start n cpu soc ran _ _ (high_page-lt _ (get_reg8-lt false cpu.reg_bc))
          (get_a-lt cpu.reg_af))
        (λ t r. Returns-some r))

  pub imm16addr_a-Ran :
      (opcode == 0xea) ≡ true
      → Returns
          (λ (p : Cpu × S). Ran bus start (n + 1 + 1 + 1) p.0 p.1)
          (opcode_imm16addr_a bus opcode cpu soc)
  unfolding opcode_imm16addr_a
  imm16addr_a-Ran e = debug_assert-Returns e (
      >>=-Returns (consume-Ran bus start n cpu soc ran) (λ l ql.
        >>=-Returns (consume-Ran bus start (n + 1) l.1 l.2 ql.1) (λ m qm.
          >>=-Returns
            (write-Ran bus start (n + 1 + 1) m.1 m.2 qm.1 (value m.0 l.0) _
              (value-lt m.0 l.0 qm.0 ql.0) (get_a-lt m.1.reg_af))
            (λ t r. Returns-some r))))

  pub r8_c-Ran :
      (opcode == 0xf2) ≡ true
      → Returns (λ (p : Cpu × S). Ran bus start (n + 1) p.0 p.1) (opcode_r8_c bus opcode cpu soc)
  unfolding opcode_r8_c
  r8_c-Ran e = debug_assert-Returns e (
      >>=-Returns
        (read-Ran bus start n cpu soc ran _ (high_page-lt _ (get_reg8-lt false cpu.reg_bc)))
        (λ p q. Returns-some (set_a-IsReady p.0 cpu q.0 q.1.0, q.1.1, q.1.2)))

  pub ldh_r8addr_a-Ran :
      (opcode == 0xe0) ≡ true
      → Returns
          (λ (p : Cpu × S). Ran bus start (n + 1 + 1) p.0 p.1)
          (opcode_ldh_r8addr_a bus opcode cpu soc)
  unfolding opcode_ldh_r8addr_a
  ldh_r8addr_a-Ran e = debug_assert-Returns e (
      >>=-Returns (consume-Ran bus start n cpu soc ran) (λ p q.
        >>=-Returns
          (write-Ran bus start (n + 1) p.1 p.2 q.1 _ _ (high_page-lt p.0 q.0) (get_a-lt p.1.reg_af))
          (λ t r. Returns-some r)))

  pub ldh_a_r8addr-Ran :
      (opcode == 0xf0) ≡ true
      → Returns
          (λ (p : Cpu × S). Ran bus start (n + 1 + 1) p.0 p.1)
          (opcode_ldh_a_r8addr bus opcode cpu soc)
  unfolding opcode_ldh_a_r8addr
  ldh_a_r8addr-Ran e = debug_assert-Returns e (
      >>=-Returns (consume-Ran bus start n cpu soc ran) (λ l ql.
        >>=-Returns (read-Ran bus start (n + 1) l.1 l.2 ql.1 _ (high_page-lt l.0 ql.0))
          (λ p q. Returns-some (set_a-IsReady p.0 l.1 q.0 q.1.0, q.1.1, q.1.2))))
