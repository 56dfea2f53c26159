-- ===== src/Cpu/Jump/Branches.antt =====
-- The conditional opcodes and those that first read an address: their cycles by whether the branch
-- is taken.
use zenith_gb.Base.{
  ℕ, ◌+◌, ◌<◌, ◌≡◌, true, Option, ◌==◌, ◌||◌, if_cases, ◌>>=◌, Returns, >>=-Returns, Returns-some,
  Returns-map, debug_assert-Returns,
}
use zenith_gb.Util.{value}
use zenith_gb.Cpu.Bus.{Bus}
use zenith_gb.Cpu.Registers.{Cpu}
use zenith_gb.Cpu.Registers.Bounds.{IsReady-pc}
use zenith_gb.Cpu.Access.{clock_consume_byte_from_pc}
use zenith_gb.Cpu.Access.Timing.{Ran, clock-Ran, consume-Ran}
use zenith_gb.Cpu.Load.Bounds.{value-lt}
use zenith_gb.Cpu.Jump.{opcode_ret_cc, opcode_jp_a16, opcode_jp_cc, opcode_call_a16, opcode_call_cc}
use zenith_gb.Cpu.Jump.Timing.{
  Ends, Ran-Ends, skip-Ends, branch_taken_lem, return_from-Ran, call-Ran,
}

module _ {S : Type 0} (bus : Bus S) (start : S) (n : ℕ) (cpu : Cpu) (soc : S)
    (ran : Ran bus start n cpu soc) where
  abbrev Either : (taken skipped : ℕ) → Option (Cpu × S) → Type 0
  Either taken skipped = Returns (λ (p : Cpu × S). Ends bus start taken skipped p.0 p.1)

  pub ret_cc-Ends :
      (opcode : ℕ)
      → (opcode == 0xc0 || opcode == 0xc8 || opcode == 0xd0 || opcode == 0xd8) ≡ true
      → Either (n + 1 + 1 + 1 + 1) (n + 1) (opcode_ret_cc bus opcode cpu soc)
  unfolding opcode_ret_cc
  ret_cc-Ends opcode e = debug_assert-Returns e (
      >>=-Returns (branch_taken_lem opcode cpu) (λ taken u.
        >>=-Returns (clock-Ran bus start n cpu soc ran) (λ t r.
          if_cases (Either (n + 1 + 1 + 1 + 1) (n + 1)) taken
            (λ e.
              Returns-map (λ p q. Ran-Ends bus start _ (n + 1) p.0 p.1 q)
                (return_from-Ran bus start (n + 1) cpu t r))
            (λ e. Returns-some (skip-Ends bus start 0 (n + 1) cpu t r)))))

  -- What follows the two bytes of an address.
  after_address :
      (next : ℕ → ℕ → Cpu → S → Option (Cpu × S)) (P : Cpu × S → Type 0)
      → ((lsb msb : ℕ) (c : Cpu) (s : S)
          → lsb < 256
          → msb < 256
          → Ran bus start (n + 1 + 1) c s
          → Returns P (next lsb msb c s))
      → Returns P (
          clock_consume_byte_from_pc bus cpu soc
          >>= (λ l. clock_consume_byte_from_pc bus l.1 l.2 >>= (λ m. next l.0 m.0 m.1 m.2)))
  after_address next P then_P = >>=-Returns (consume-Ran bus start n cpu soc ran) (λ l ql.
      >>=-Returns (consume-Ran bus start (n + 1) l.1 l.2 ql.1)
        (λ m qm. then_P l.0 m.0 m.1 m.2 ql.0 qm.0 qm.1))

  pub jp_a16-Ran :
      Returns (λ (p : Cpu × S). Ran bus start (n + 1 + 1 + 1) p.0 p.1) (opcode_jp_a16 bus cpu soc)
  unfolding opcode_jp_a16
  jp_a16-Ran = after_address _ _ (λ lsb msb c s hl hm r.
      >>=-Returns
        (clock-Ran bus start (n + 1 + 1) (record c { reg_pc = value msb lsb }) s
          (IsReady-pc c _ (value-lt msb lsb hm hl) r.0, r.1, r.2))
        (λ t v. Returns-some v))

  pub jp_cc-Ends :
      (opcode : ℕ) → Either (n + 1 + 1 + 1) (n + 1 + 1) (opcode_jp_cc bus opcode cpu soc)
  unfolding opcode_jp_cc
  jp_cc-Ends opcode = after_address _ _ (λ lsb msb c s hl hm r.
      >>=-Returns (branch_taken_lem opcode c) (λ taken u.
        if_cases (Either (n + 1 + 1 + 1) (n + 1 + 1)) taken
          (λ e. >>=-Returns (clock-Ran bus start (n + 1 + 1) c s r) (λ t v. Returns-some (
            Ran-Ends bus start _ (n + 1 + 1) (record c { reg_pc = value msb lsb }) t
              (IsReady-pc c _ (value-lt msb lsb hm hl) v.0, v.1, v.2))))
          (λ e. Returns-some (skip-Ends bus start 0 (n + 1 + 1) c s r))))

  pub call_a16-Ran :
      Returns
        (λ (p : Cpu × S). Ran bus start (n + 1 + 1 + 1 + 1 + 1) p.0 p.1)
        (opcode_call_a16 bus cpu soc)
  unfolding opcode_call_a16
  call_a16-Ran =
      after_address _ _ (λ lsb msb c s hl hm r. call-Ran bus start (n + 1 + 1) c s r msb lsb hm hl)

  pub call_cc-Ends :
      (opcode : ℕ)
      → (opcode == 0xc4 || opcode == 0xcc || opcode == 0xd4 || opcode == 0xdc) ≡ true
      → Either (n + 1 + 1 + 1 + 1 + 1) (n + 1 + 1) (opcode_call_cc bus opcode cpu soc)
  unfolding opcode_call_cc
  call_cc-Ends opcode e = after_address _ _ (λ lsb msb c s hl hm r. debug_assert-Returns e (
      >>=-Returns (branch_taken_lem opcode c) (λ taken u.
        if_cases (Either (n + 1 + 1 + 1 + 1 + 1) (n + 1 + 1)) taken
          (λ e.
            Returns-map (λ p q. Ran-Ends bus start _ (n + 1 + 1) p.0 p.1 q)
              (call-Ran bus start (n + 1 + 1) c s r msb lsb hm hl))
          (λ e. Returns-some (skip-Ends bus start 0 (n + 1 + 1) c s r)))))
