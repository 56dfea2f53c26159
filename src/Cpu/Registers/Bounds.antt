-- ===== src/Cpu/Registers/Bounds.antt =====
-- The registers keep to their widths.
use zenith_gb.Base.{
  ℕ, ◌-◌, ◌<◌, ◌≡◌, refl, Bool, true, false, Option, some, bit_and, bit_or, u8, ◌==◌, arith,
  Returns, if_cases, ◌⊎◌, inl, inr,
}
use zenith_gb.Base.Bits.{bit_and-le, bit_or-lt_two_pow}
use zenith_gb.Util.Bytes.{set_high_lem, set_low_lem}
use zenith_gb.Cpu.{get_f, set_flag, flag_z, flag_n, flag_h, flag_c}
use zenith_gb.Cpu.Registers.{
  Cpu, get_reg8, set_reg8, read_r8, write_r8, read_r16, write_r16, read_r16stk_msb, read_r16stk_lsb,
  write_r16stk, dec_reg16, inc_reg16, set_znhc, set_znh,
}

-- Six words, an opcode of one byte, and no branch skipped so far.
abbrev pub IsReady : Cpu → Type 0
IsReady cpu =
    (cpu.opcode < 256)
    × (cpu.reg_af < 65536)
    × (cpu.reg_bc < 65536)
    × (cpu.reg_de < 65536)
    × (cpu.reg_hl < 65536)
    × (cpu.reg_sp < 65536)
    × (cpu.reg_pc < 65536)
    × (cpu.branch_skipped ≡ false)

pub get_reg8-lt : (high : Bool) (w : ℕ) → get_reg8 high w < 256
unfolding get_reg8
get_reg8-lt true w = omega arith
get_reg8-lt false w = omega arith

pub set_reg8-lt : (high : Bool) (v w : ℕ) → v < 256 → w < 65536 → set_reg8 high v w < 65536
unfolding set_reg8
set_reg8-lt true v w hv hw = omega (arith, set_high_lem w v hv)
set_reg8-lt false v w hv hw = omega (arith, set_low_lem w v hw hv)

pub set_flag-lt :
    (flag : ℕ) (b : Bool) (af : ℕ) → flag < 256 → af < 65536 → set_flag flag b af < 65536
unfolding set_flag get_f
set_flag-lt flag true af hf h =
    let low : u8 (bit_and af 0xff) < 256 = omega arith in
    let v = bit_or-lt_two_pow 8 (u8 (bit_and af 0xff)) flag low hf in
    omega (arith, set_low_lem af (bit_or (u8 (bit_and af 0xff)) flag) h v)
set_flag-lt flag false af hf h =
    let low : u8 (bit_and af 0xff) < 256 = omega arith in
    let v = bit_and-le (u8 (bit_and af 0xff)) (255 - flag) in
    omega (
      arith,
      v.0,
      set_low_lem af (bit_and (u8 (bit_and af 0xff)) (255 - flag)) h (omega (arith, v.0)),
    )

-- Replacing one register by a word.
module _ (cpu : Cpu) (w : ℕ) (lt : w < 65536) (ready : IsReady cpu) where
  pub IsReady-af : IsReady (record cpu { reg_af = w })
  IsReady-af = (ready.0, lt, ready.2, ready.3, ready.4, ready.5, ready.6, ready.7)

  pub IsReady-bc : IsReady (record cpu { reg_bc = w })
  IsReady-bc = (ready.0, ready.1, lt, ready.3, ready.4, ready.5, ready.6, ready.7)

  pub IsReady-de : IsReady (record cpu { reg_de = w })
  IsReady-de = (ready.0, ready.1, ready.2, lt, ready.4, ready.5, ready.6, ready.7)

  pub IsReady-hl : IsReady (record cpu { reg_hl = w })
  IsReady-hl = (ready.0, ready.1, ready.2, ready.3, lt, ready.5, ready.6, ready.7)

  pub IsReady-sp : IsReady (record cpu { reg_sp = w })
  IsReady-sp = (ready.0, ready.1, ready.2, ready.3, ready.4, lt, ready.6, ready.7)

  pub IsReady-pc : IsReady (record cpu { reg_pc = w })
  IsReady-pc = (ready.0, ready.1, ready.2, ready.3, ready.4, ready.5, lt, ready.7)

pub dec_reg16-lt : (w : ℕ) → dec_reg16 w < 65536
unfolding dec_reg16
dec_reg16-lt w = omega arith

pub inc_reg16-lt : (w : ℕ) → inc_reg16 w < 65536
unfolding inc_reg16
inc_reg16-lt w = omega arith

pub set_znhc-lt : (z n h c : Bool) (af : ℕ) → af < 65536 → set_znhc z n h c af < 65536
set_znhc-lt z n h c af lt =
    let z_lt = set_flag-lt flag_z z af (omega arith) lt in
    let n_lt = set_flag-lt flag_n n _ (omega arith) z_lt in
    let h_lt = set_flag-lt flag_h h _ (omega arith) n_lt in
    set_flag-lt flag_c c _ (omega arith) h_lt

pub set_znh-lt : (z n h : Bool) (af : ℕ) → af < 65536 → set_znh z n h af < 65536
set_znh-lt z n h af lt =
    let z_lt = set_flag-lt flag_z z af (omega arith) lt in
    let n_lt = set_flag-lt flag_n n _ (omega arith) z_lt in
    set_flag-lt flag_h h _ (omega arith) n_lt

pub read_r8_lem :
    (r : ℕ) (cpu : Cpu) → r < 8 → (r == 6) ≡ false → Returns (λ v. v < 256) (read_r8 r cpu)
unfolding read_r8
read_r8_lem r cpu h ne =
    if_cases P (r == 7) (λ e. byte true cpu.reg_af)
      (λ e7.
        if_cases P (r == 5) (λ e. byte false cpu.reg_hl)
          (λ e5.
            if_cases P (r == 4) (λ e. byte true cpu.reg_hl)
              (λ e4.
                if_cases P (r == 3) (λ e. byte false cpu.reg_de)
                  (λ e3.
                    if_cases P (r == 2) (λ e. byte true cpu.reg_de)
                      (λ e2.
                        if_cases P (r == 1) (λ e. byte false cpu.reg_bc)
                          (λ e1.
                            if_cases P (r == 0) (λ e. byte true cpu.reg_bc)
                              (λ e0. absurd (ground arith))))))))
  where
    P : Option ℕ → Type 0
    P = Returns (λ v. v < 256)

    byte : (high : Bool) (w : ℕ) → P (some (get_reg8 high w))
    byte high w = (get_reg8 high w, refl, get_reg8-lt high w)

pub write_r8_lem :
    (r v : ℕ) (cpu : Cpu)
    → r < 8
    → (r == 6) ≡ false
    → v < 256
    → IsReady cpu
    → Returns IsReady (write_r8 r v cpu)
unfolding write_r8
write_r8_lem r v cpu h ne lt ready =
    if_cases P (r == 7) (λ e. (_, refl, IsReady-af cpu _ (set_reg8-lt true v _ lt ready.1) ready))
      (λ e7.
        if_cases P (r == 5)
          (λ e. (_, refl, IsReady-hl cpu _ (set_reg8-lt false v _ lt ready.4) ready))
          (λ e5.
            if_cases P (r == 4)
              (λ e. (_, refl, IsReady-hl cpu _ (set_reg8-lt true v _ lt ready.4) ready))
              (λ e4.
                if_cases P (r == 3)
                  (λ e. (_, refl, IsReady-de cpu _ (set_reg8-lt false v _ lt ready.3) ready))
                  (λ e3.
                    if_cases P (r == 2)
                      (λ e. (_, refl, IsReady-de cpu _ (set_reg8-lt true v _ lt ready.3) ready))
                      (λ e2.
                        if_cases P (r == 1)
                          (λ e.
                            (_, refl, IsReady-bc cpu _ (set_reg8-lt false v _ lt ready.2) ready))
                          (λ e1.
                            if_cases P (r == 0)
                              (λ e.
                                (_, refl, IsReady-bc cpu _ (set_reg8-lt true v _ lt ready.2) ready))
                              (λ e0. absurd (ground arith))))))))
  where
    P : Option Cpu → Type 0
    P = Returns IsReady

-- The four encodings of a 16-bit register.
pub four_cases : (r : ℕ) → r < 4 → (r ≡ 0) ⊎ (r ≡ 1) ⊎ (r ≡ 2) ⊎ (r ≡ 3)
four_cases r h = ground arith

pub read_r16_lem :
    (r : ℕ) (cpu : Cpu) → r < 4 → IsReady cpu → Returns (λ w. w < 65536) (read_r16 r cpu)
unfolding read_r16
read_r16_lem r cpu h ready = elim (four_cases r h) [
  | inl e ↦ simp e (_, refl, ready.2)
  | inr (inl e) ↦ simp e (_, refl, ready.3)
  | inr (inr (inl e)) ↦ simp e (_, refl, ready.4)
  | inr (inr (inr e)) ↦ simp e (_, refl, ready.5)
]

pub write_r16_lem :
    (r w : ℕ) (cpu : Cpu) → r < 4 → w < 65536 → IsReady cpu → Returns IsReady (write_r16 r w cpu)
unfolding write_r16
write_r16_lem r w cpu h lt ready = elim (four_cases r h) [
  | inl e ↦ simp e (_, refl, IsReady-bc cpu w lt ready)
  | inr (inl e) ↦ simp e (_, refl, IsReady-de cpu w lt ready)
  | inr (inr (inl e)) ↦ simp e (_, refl, IsReady-hl cpu w lt ready)
  | inr (inr (inr e)) ↦ simp e (_, refl, IsReady-sp cpu w lt ready)
]

pub read_r16stk_msb_lem :
    (r : ℕ) (cpu : Cpu) → r < 4 → Returns (λ v. v < 256) (read_r16stk_msb r cpu)
unfolding read_r16stk_msb
read_r16stk_msb_lem r cpu h = elim (four_cases r h) [
  | inl e ↦ simp e (_, refl, get_reg8-lt true cpu.reg_bc)
  | inr (inl e) ↦ simp e (_, refl, get_reg8-lt true cpu.reg_de)
  | inr (inr (inl e)) ↦ simp e (_, refl, get_reg8-lt true cpu.reg_hl)
  | inr (inr (inr e)) ↦ simp e (_, refl, get_reg8-lt true cpu.reg_af)
]

pub read_r16stk_lsb_lem :
    (r : ℕ) (cpu : Cpu) → r < 4 → Returns (λ v. v < 256) (read_r16stk_lsb r cpu)
unfolding read_r16stk_lsb
read_r16stk_lsb_lem r cpu h = elim (four_cases r h) [
  | inl e ↦ simp e (_, refl, get_reg8-lt false cpu.reg_bc)
  | inr (inl e) ↦ simp e (_, refl, get_reg8-lt false cpu.reg_de)
  | inr (inr (inl e)) ↦ simp e (_, refl, get_reg8-lt false cpu.reg_hl)
  | inr (inr (inr e)) ↦ simp e (_, refl, get_reg8-lt false cpu.reg_af)
]

pub write_r16stk_lem :
    (r w : ℕ) (cpu : Cpu) → r < 4 → w < 65536 → IsReady cpu → Returns IsReady (write_r16stk r w cpu)
unfolding write_r16stk
write_r16stk_lem r w cpu h lt ready = elim (four_cases r h) [
  | inl e ↦ simp e (_, refl, IsReady-bc cpu w lt ready)
  | inr (inl e) ↦ simp e (_, refl, IsReady-de cpu w lt ready)
  | inr (inr (inl e)) ↦ simp e (_, refl, IsReady-hl cpu w lt ready)
  | inr (inr (inr e)) ↦
      simp e (_, refl, IsReady-af cpu _ (omega (arith, (bit_and-le w 0xfff0).0)) ready)
]
