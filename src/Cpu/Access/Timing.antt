-- ===== src/Cpu/Access/Timing.antt =====
-- What the accesses cost, and that they keep the processor and the bus in order.
use zenith_gb.Base.{
  ℕ, ◌+◌, ◌<◌, ◌≡◌, refl, false, ◌==◌, arith, Returns, >>=-Returns, Returns-some, Bool-cases, inl,
  inr, if◌then◌else◌,
}
use zenith_gb.Util.Bytes.{value_lem}
use zenith_gb.Cpu.Bus.{Bus}
use zenith_gb.Cpu.Registers.{Cpu, dec_reg16, inc_reg16}
use zenith_gb.Cpu.Registers.Bounds.{
  IsReady, IsReady-pc, IsReady-sp, dec_reg16-lt, inc_reg16-lt, read_r8_lem, write_r8_lem,
}
use zenith_gb.Cpu.Access.{
  clock_consume_byte_from_pc, clock_fetch, clock_push_u8, clock_pop_u16, clock_read_r8_hladdr,
  clock_write_r8_hladdr,
}

-- From the bus `start` on, `n` cycles have passed, and processor and bus are in order.
abbrev pub Ran : {S : Type 0} → Bus S → S → ℕ → Cpu → S → Type 0
Ran bus start n cpu soc = IsReady cpu × bus.IsValid soc × (bus.cycles soc ≡ bus.cycles start + n)

module _ {S : Type 0} (bus : Bus S) (start : S) (n : ℕ) (cpu : Cpu) (soc : S)
    (ran : Ran bus start n cpu soc) where
  open bus use {clock, clock_read, clock_write}

  pub clock-Ran : Returns (λ t. Ran bus start (n + 1) cpu t) (clock soc)
  clock-Ran =
      let (t, e, (valid, c)) = bus.clock_lem soc ran.1 in (t, e, (ran.0, valid, omega arith))

  pub read-Ran :
      (address : ℕ)
      → address < 65536
      → Returns
          (λ (p : ℕ × S). (p.0 < 256) × Ran bus start (n + 1) cpu p.1)
          (clock_read address soc)
  read-Ran address lt =
      let (p, e, (byte, valid, c)) = bus.clock_read_lem address soc lt ran.1 in
      (p, e, (byte, (ran.0, valid, omega arith)))

  pub write-Ran :
      (address byte : ℕ)
      → address < 65536
      → byte < 256
      → Returns (λ t. Ran bus start (n + 1) cpu t) (clock_write address byte soc)
  write-Ran address byte lt blt =
      let (t, e, (valid, c)) = bus.clock_write_lem address byte soc lt blt ran.1 in
      (t, e, (ran.0, valid, omega arith))

  pub consume-Ran :
      Returns
        (λ (p : ℕ × Cpu × S). (p.0 < 256) × Ran bus start (n + 1) p.1 p.2)
        (clock_consume_byte_from_pc bus cpu soc)
  unfolding clock_consume_byte_from_pc
  consume-Ran =
      >>=-Returns (read-Ran cpu.reg_pc ran.0.6) (λ p q.
        Returns-some (q.0, (IsReady-pc cpu _ (inc_reg16-lt cpu.reg_pc) q.1.0, q.1.1, q.1.2)))

  pub push-Ran :
      (val : ℕ)
      → val < 256
      → Returns (λ (p : Cpu × S). Ran bus start (n + 1) p.0 p.1) (clock_push_u8 bus val cpu soc)
  unfolding clock_push_u8
  push-Ran val lt =
      >>=-Returns (write-Ran (dec_reg16 cpu.reg_sp) val (dec_reg16-lt cpu.reg_sp) lt)
        (λ t q. Returns-some (IsReady-sp cpu _ (dec_reg16-lt cpu.reg_sp) q.0, q.1, q.2))

-- The accesses of several cycles, and those of a register or the byte at HL.
module _ {S : Type 0} (bus : Bus S) (start : S) (n : ℕ) (cpu : Cpu) (soc : S)
    (ran : Ran bus start n cpu soc) where
  open bus use {clock_read, clock_write}

  pub fetch-Ran : Returns (λ (p : Cpu × S). Ran bus start (n + 1) p.0 p.1) (clock_fetch bus cpu soc)
  unfolding clock_fetch
  fetch-Ran = >>=-Returns (consume-Ran bus start n cpu soc ran) (λ p (lt, (ready, valid, c)).
      Returns-some ((lt, ready.1, ready.2, ready.3, ready.4, ready.5, ready.6, ready.7), valid, c))

  pub pop-Ran :
      Returns
        (λ (p : ℕ × Cpu × S). (p.0 < 65536) × Ran bus start (n + 1 + 1) p.1 p.2)
        (clock_pop_u16 bus cpu soc)
  unfolding clock_pop_u16
  pop-Ran = >>=-Returns (read-Ran bus start n cpu soc ran cpu.reg_sp ran.0.5) (λ lsb (lsb_lt, ran1).
      >>=-Returns
        (read-Ran bus start (n + 1) cpu lsb.1 ran1 (inc_reg16 cpu.reg_sp) (inc_reg16-lt cpu.reg_sp))
        (λ msb (msb_lt, ran2). Returns-some (
          omega (arith, value_lem msb.0 lsb.0 lsb_lt),
          (IsReady-sp cpu _ (inc_reg16-lt (inc_reg16 cpu.reg_sp)) ran2.0, ran2.1, ran2.2),
        )))

  pub read_r8_hladdr-Ran :
      (r : ℕ)
      → r < 8
      → Returns
          (λ (p : ℕ × S). (p.0 < 256) × Ran bus start (n + (if r == 6 then 1 else 0)) cpu p.1)
          (clock_read_r8_hladdr bus r cpu soc)
  unfolding clock_read_r8_hladdr
  read_r8_hladdr-Ran r lt = elim (Bool-cases (r == 6)) [
    | inl e ↦ simp e (read-Ran bus start n cpu soc ran cpu.reg_hl ran.0.4)
    | inr e ↦ simp e (
        >>=-Returns (read_r8_lem r cpu lt e)
          (λ v v_lt. Returns-some (v_lt, (ran.0, ran.1, omega arith))))
  ]

  pub write_r8_hladdr-Ran :
      (r v : ℕ)
      → r < 8
      → v < 256
      → Returns
          (λ (p : Cpu × S). Ran bus start (n + (if r == 6 then 1 else 0)) p.0 p.1)
          (clock_write_r8_hladdr bus r v cpu soc)
  unfolding clock_write_r8_hladdr
  write_r8_hladdr-Ran r v lt v_lt = elim (Bool-cases (r == 6)) [
    | inl e ↦ simp e (
        >>=-Returns (write-Ran bus start n cpu soc ran cpu.reg_hl v ran.0.4 v_lt)
          (λ t q. Returns-some q))
    | inr e ↦ simp e (
        >>=-Returns (write_r8_lem r v cpu lt e v_lt ran.0)
          (λ c ready. Returns-some (ready, ran.1, omega arith)))
  ]

-- The fetch at the end of an instruction, also after a branch that was skipped.
pub fetch_after :
    {S : Type 0} (bus : Bus S) (cpu : Cpu) (soc : S)
    → IsReady (record cpu { branch_skipped = false })
    → bus.IsValid soc
    → Returns
        (λ (p : Cpu × S).
          IsReady (record p.0 { branch_skipped = false })
          × (p.0.branch_skipped ≡ cpu.branch_skipped)
          × bus.IsValid p.1
          × (bus.cycles p.1 ≡ bus.cycles soc + 1))
        (clock_fetch bus cpu soc)
unfolding clock_fetch clock_consume_byte_from_pc
fetch_after bus cpu soc r valid =
    let (p, e, (lt, valid1, c)) = bus.clock_read_lem cpu.reg_pc soc r.6 valid in
    simp e
      (Returns-some ((lt, r.1, r.2, r.3, r.4, r.5, inc_reg16-lt cpu.reg_pc, refl), refl, valid1, c))
