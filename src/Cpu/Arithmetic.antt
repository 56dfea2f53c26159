-- ===== src/Cpu/Arithmetic.antt =====
-- Addition, subtraction and comparison of bytes, with their flags.
use zenith_gb.Base.{ℕ, ◌+◌, ◌-◌, ◌%◌, ◌≤◌, ◌<◌, ◌≡◌, ap, ◌∙◌, Bool, true, false, ◌==◌, ltb, arith}
use zenith_gb.Base.Bits.{bit_and-mask}
use zenith_gb.Util.{get_low}
use zenith_gb.Util.Bytes.{get_low_lem}
use zenith_gb.Cpu.{flag_c, flag_h, flag_n, flag_z, set_flag, add_a8, sub_a8}
use zenith_gb.Cpu.Flags.{af_of, set_z, set_n, set_h, set_c, get_a_lem, set_a_lem}

-- The four flags are set one after the other.
set_all :
    (a : ℕ) (z n h c z' n' h' c' : Bool) (rest : ℕ)
    → a < 256
    → rest < 16
    → set_flag flag_c c'
        (set_flag flag_h h' (set_flag flag_n n' (set_flag flag_z z' (af_of a z n h c rest))))
      ≡ af_of a z' n' h' c' rest
set_all a z n h c z' n' h' c' rest lt le =
    ap (λ w. set_flag flag_c c' (set_flag flag_h h' (set_flag flag_n n' w)))
      (set_z a z' z n h c rest lt le)
    ∙ ap (λ w. set_flag flag_c c' (set_flag flag_h h' w)) (set_n a n' z' n h c rest lt le)
    ∙ ap (λ w. set_flag flag_c c' w) (set_h a h' z' n' h c rest lt le)
    ∙ set_c a c' z' n' h' c rest lt le

-- Adding a byte and a carry to the accumulator leaves their sum modulo 256; Z says that this is 0,
-- H that the low halves add up to 16 or more, C that the bytes add up to 256 or more, and N is
-- cleared.
pub add_a8_lem :
    (a val carry : ℕ) (z n h c : Bool) (rest : ℕ)
    → a < 256
    → rest < 16
    → add_a8 (af_of a z n h c rest) val carry
      ≡ af_of
          ((a + val + carry) % 256)
          ((a + val + carry) % 256 == 0)
          false
          (ltb 15 (a % 16 + val % 16 + carry))
          (ltb 255 (a + val + carry))
          rest
unfolding add_a8
add_a8_lem a val carry z n h c rest lt le =
    let a_lem = get_a_lem a z n h c rest lt le in
    let low = get_low_lem (a + val + carry) in
    let sum : ℕ = (a + val + carry) % 256 in
    let half_a = bit_and-mask 4 a in
    let half_v = bit_and-mask 4 val in
    let z' : Bool = sum == 0 in
    let h' : Bool = ltb 15 (a % 16 + val % 16 + carry) in
    let c' : Bool = ltb 255 (a + val + carry) in
    simp (a_lem, low, half_a, half_v, set_all a z n h c z' false h' c' rest lt le)
      (set_a_lem a sum z' false h' c' rest (omega arith) le)

-- Subtracting a byte and a borrow from the accumulator leaves the difference modulo 256; Z says
-- that this is 0, H that the low halves borrow, C that the whole does, and N is set.
pub sub_a8_lem :
    (a val carry : ℕ) (z n h c : Bool) (rest : ℕ)
    → a < 256
    → val < 256
    → carry ≤ 1
    → rest < 16
    → sub_a8 (af_of a z n h c rest) val carry
      ≡ af_of
          ((a + 512 - val - carry) % 256)
          (a == (val + carry) % 256)
          true
          (ltb (a % 16) (val % 16 + carry))
          (ltb a (val + carry))
          rest
unfolding sub_a8
sub_a8_lem a val carry z n h c rest lt lt' one le =
    let a_lem = get_a_lem a z n h c rest lt le in
    let diff : ℕ = (a + 512 - val - carry) % 256 in
    let low : get_low ((a + 65536 - val - carry) % 65536) ≡ diff =
      ground (arith, get_low_lem ((a + 65536 - val - carry) % 65536)) in
    let half_a = bit_and-mask 4 a in
    let half_v = bit_and-mask 4 val in
    let z' : Bool = a == (val + carry) % 256 in
    let is_zero : (diff == 0) ≡ z' = ground arith in
    let h' : Bool = ltb (a % 16) (val % 16 + carry) in
    let c' : Bool = ltb a (val + carry) in
    simp (a_lem, low, half_a, half_v, is_zero, set_all a z n h c z' true h' c' rest lt le)
      (set_a_lem a diff z' true h' c' rest (omega arith) le)
