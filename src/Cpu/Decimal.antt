-- ===== src/Cpu/Decimal.antt =====
-- The decimal adjustment after an addition or a subtraction of two-digit decimal bytes.
use zenith_gb.Base.{
  ℕ, ◌+◌, ◌-◌, ◌*◌, ◌/◌, ◌%◌, ◌<◌, ◌≡◌, refl, ap, ◌∙◌, Bool, true, false, ◌&&◌, ◌||◌, not, bit_or,
  ◌==◌, ltb, leb, if◌then◌else◌, arith,
}
use zenith_gb.Base.Bits.{bit_and-mask}
use zenith_gb.Cpu.{add_a8, sub_a8, opcode_daa}
use zenith_gb.Cpu.Flags.{af_of, set_z, set_h, set_c, get_n, get_h, get_c, get_a_lem, set_a_lem}
use zenith_gb.Cpu.Arithmetic.{add_a8_lem, sub_a8_lem}

abbrev adjusts_low : ℕ → (n h : Bool) → Bool
adjusts_low a n h = not n && ltb 9 (a % 16) || h

abbrev adjusts_high : ℕ → (n c : Bool) → Bool
adjusts_high a n c = not n && ltb 0x99 a || c

abbrev adjusted : ℕ → (n h c : Bool) → ℕ
adjusted a n h c =
    let offset = (if adjusts_low a n h then 6 else 0) + (if adjusts_high a n c then 96 else 0) in
    if n then (a + 256 - offset) % 256 else (a + offset) % 256

or_offsets :
    (low high : Bool)
    → bit_or (if low then 0x6 else 0) (if high then 0x60 else 0)
      ≡ (if low then 6 else 0) + (if high then 96 else 0)
or_offsets true true = refl
or_offsets true false = refl
or_offsets false true = refl
or_offsets false false = refl

adjusted-lt : (a : ℕ) (n h c : Bool) → adjusted a n h c < 256
adjusted-lt a true h c = omega arith
adjusted-lt a false h c = omega arith

opcode_daa_lem :
    (a : ℕ) (z n h c : Bool) (rest : ℕ)
    → a < 256
    → rest < 16
    → opcode_daa (af_of a z n h c rest)
      ≡ af_of (adjusted a n h c) (adjusted a n h c == 0) n false (adjusts_high a n c) rest
unfolding opcode_daa
opcode_daa_lem a z n h c rest lt le =
    let a_lem = get_a_lem a z n h c rest lt le in
    let n_lem = get_n a z n h c rest le in
    let h_lem = get_h a z n h c rest le in
    let c_lem = get_c a z n h c rest le in
    let half = bit_and-mask 4 a in
    let low : Bool = adjusts_low a n h in
    let high : Bool = adjusts_high a n c in
    let b : ℕ = adjusted a n h c in
    let b_lt : b < 256 = adjusted-lt a n h c in
    let a_set = set_a_lem a b z n h c rest b_lt le in
    let c_set = set_c b high z n h c rest b_lt le in
    let h_set = set_h b false z n h high rest b_lt le in
    let z_set = set_z b (b == 0) z n false high rest b_lt le in
    simp (a_lem, n_lem, h_lem, c_lem, half)
      (simp (or_offsets low high) (simp a_set (simp c_set (simp h_set z_set))))

-- Two decimal digits as a byte.
abbrev pub bcd : ℕ → ℕ
bcd x = 16 * (x / 10) + x % 10

adjusted-add :
    (x y : ℕ)
    → x < 100
    → y < 100
    → let a = (bcd x + bcd y) % 256 in
      let h = ltb 15 (bcd x % 16 + bcd y % 16) in
      let c = ltb 255 (bcd x + bcd y) in
      (adjusted a false h c ≡ bcd ((x + y) % 100)) × (adjusts_high a false c ≡ leb 100 (x + y))
adjusted-add x y lt lt' = ground arith

adjusted-sub :
    (x y : ℕ)
    → x < 100
    → y < 100
    → let a = (bcd x + 512 - bcd y) % 256 in
      let h = ltb (bcd x % 16) (bcd y % 16) in
      let c = ltb (bcd x) (bcd y) in
      (adjusted a true h c ≡ bcd ((x + 100 - y) % 100)) × (adjusts_high a true c ≡ ltb x y)
adjusted-sub x y lt lt' = ground arith

bcd-zero : (x : ℕ) → (bcd x == 0) ≡ (x == 0)
bcd-zero x = ground arith

-- Adding the two-digit decimal numbers `x` and `y` as bytes and adjusting gives the two digits of
-- their sum; the carry flag says that the sum has a third digit, and Z that the two are zero.
pub daa-add :
    (x y : ℕ) (z n h c : Bool) (rest : ℕ)
    → x < 100
    → y < 100
    → rest < 16
    → opcode_daa (add_a8 (af_of (bcd x) z n h c rest) (bcd y) 0)
      ≡ af_of (bcd ((x + y) % 100)) ((x + y) % 100 == 0) false false (leb 100 (x + y)) rest
daa-add x y z n h c rest lt lt' le =
    let sum = add_a8_lem (bcd x) (bcd y) 0 z n h c rest (omega arith) le in
    let a : ℕ = (bcd x + bcd y) % 256 in
    let h' : Bool = ltb 15 (bcd x % 16 + bcd y % 16) in
    let c' : Bool = ltb 255 (bcd x + bcd y) in
    let daa = opcode_daa_lem a (a == 0) false h' c' rest (omega arith) le in
    let (value, high) = adjusted-add x y lt lt' in
    let v : ℕ = (x + y) % 100 in
    let e : bcd x + bcd y + 0 ≡ bcd x + bcd y = omega arith in
    let f : bcd x % 16 + bcd y % 16 + 0 ≡ bcd x % 16 + bcd y % 16 = omega arith in
    simp sum (
      simp (e, f)
        (daa
          ∙ ap (λ k. af_of k (k == 0) false false (adjusts_high a false c') rest) value
          ∙ ap (λ b. af_of (bcd v) (bcd v == 0) false false b rest) high
          ∙ ap (λ b. af_of (bcd v) b false false (leb 100 (x + y)) rest) (bcd-zero v)))

-- Subtracting the two-digit decimal number `y` from `x` as bytes and adjusting gives the two digits
-- of the difference modulo 100; the carry flag says that `x` is below `y`, and Z that the digits
-- are zero.
pub daa-sub :
    (x y : ℕ) (z n h c : Bool) (rest : ℕ)
    → x < 100
    → y < 100
    → rest < 16
    → opcode_daa (sub_a8 (af_of (bcd x) z n h c rest) (bcd y) 0)
      ≡ af_of (bcd ((x + 100 - y) % 100)) ((x + 100 - y) % 100 == 0) true false (ltb x y) rest
daa-sub x y z n h c rest lt lt' le =
    let diff =
      sub_a8_lem (bcd x) (bcd y) 0 z n h c rest (omega arith) (omega arith) (omega arith) le in
    let a : ℕ = (bcd x + 512 - bcd y) % 256 in
    let h' : Bool = ltb (bcd x % 16) (bcd y % 16) in
    let c' : Bool = ltb (bcd x) (bcd y) in
    let z' : Bool = bcd x == bcd y % 256 in
    let daa = opcode_daa_lem a z' true h' c' rest (omega arith) le in
    let (value, high) = adjusted-sub x y lt lt' in
    let v : ℕ = (x + 100 - y) % 100 in
    let e : bcd x + 512 - bcd y - 0 ≡ bcd x + 512 - bcd y = omega arith in
    let f : bcd y % 16 + 0 ≡ bcd y % 16 = omega arith in
    let g : bcd y + 0 ≡ bcd y = omega arith in
    simp diff (
      simp (e, f, g)
        (daa
          ∙ ap (λ k. af_of k (k == 0) true false (adjusts_high a true c') rest) value
          ∙ ap (λ b. af_of (bcd v) (bcd v == 0) true false b rest) high
          ∙ ap (λ b. af_of (bcd v) b true false (ltb x y) rest) (bcd-zero v)))
