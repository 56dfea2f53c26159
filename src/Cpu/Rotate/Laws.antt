-- ===== src/Cpu/Rotate/Laws.antt =====
-- The rotations: what they make of a byte and of the carry.
use zenith_gb.Base.{
  ℕ, ◌+◌, ◌*◌, ◌/◌, ◌%◌, ◌<◌, ◌≡◌, refl, ap, Bool, false, bit_and, bit_or, u16, ◌<<<◌, ◌>>>◌, ◌==◌,
  leb, of_bool, arith,
}
use zenith_gb.Base.Bits.{bit_and-bit, bit_or-fields}
use zenith_gb.Util.{get_low}
use zenith_gb.Util.Bytes.{get_low-lt, get_low_lem}
use zenith_gb.Cpu.Flags.{af_of, set_z, set_n, set_h, set_c, get_c}
use zenith_gb.Cpu.Registers.{set_znhc}
use zenith_gb.Cpu.Registers.Bounds.{set_znhc-lt}
use zenith_gb.Cpu.Rotate.{rrc, rr, rlc, rl}

-- A routine that gives a byte and a word.
abbrev pub KeepsWidth : (ℕ → ℕ → ℕ × ℕ) → Type 0
KeepsWidth f = (v af : ℕ) → v < 256 → af < 65536 → ((f v af).0 < 256) × ((f v af).1 < 65536)

pub rrc-KeepsWidth : KeepsWidth rrc
unfolding rrc
rrc-KeepsWidth v af v_lt lt = (get_low-lt _, set_znhc-lt _ _ _ _ af lt)

pub rr-KeepsWidth : KeepsWidth rr
unfolding rr
rr-KeepsWidth v af v_lt lt = (get_low-lt _, set_znhc-lt _ _ _ _ af lt)

pub rlc-KeepsWidth : KeepsWidth rlc
unfolding rlc
rlc-KeepsWidth v af v_lt lt = (get_low-lt _, set_znhc-lt _ _ _ _ af lt)

pub rl-KeepsWidth : KeepsWidth rl
unfolding rl
rl-KeepsWidth v af v_lt lt = (get_low-lt _, set_znhc-lt _ _ _ _ af lt)

-- The four flags set one after the other.
set_znhc_lem :
    (a : ℕ) (z n h c z' n' h' c' : Bool) (rest : ℕ)
    → a < 256
    → rest < 16
    → set_znhc z' n' h' c' (af_of a z n h c rest) ≡ af_of a z' n' h' c' rest
set_znhc_lem a z n h c z' n' h' c' rest lt le =
    simp
      (
        set_z a z' z n h c rest lt le,
        set_n a n' z' n h c rest lt le,
        set_h a h' z' n' h c rest lt le,
        set_c a c' z' n' h' c rest lt le,
      )
      refl

-- A left rotation by its parts: seven bits move up, and the top bit moves out.
left_bits :
    (v : ℕ) (c : Bool)
    → v < 256
    → get_low (bit_or (u16 (v <<< 1)) (of_bool c)) ≡ v * 2 % 256 + of_bool c
left_bits v c lt =
    let e : u16 (v <<< 1) ≡ v * 2 = omega arith in
    simp e (ground (arith, bit_or-fields 1 v (of_bool c), get_low_lem (v * 2 + of_bool c)))

top_bit : (v : ℕ) → v < 256 → (bit_and v 0x80 == 0x80) ≡ leb 128 v
top_bit v lt = ground (arith, bit_and-bit 7 v)

low_bit : (v : ℕ) → (bit_and v 0x1 == 0x1) ≡ (v % 2 == 1)
low_bit v = ground (arith, bit_and-bit 0 v)

right_bits :
    (v : ℕ) (c : Bool)
    → v < 256
    → get_low (bit_or (of_bool c <<< 7) (v >>> 1)) ≡ v / 2 + 128 * of_bool c
right_bits v c lt =
    ground (arith, bit_or-fields 7 (of_bool c) (v / 2), get_low_lem (of_bool c * 128 + v / 2))

-- The byte that `RL` gives and the accumulator and flags it leaves.
rl_lem :
    (v a : ℕ) (z n h c : Bool) (rest : ℕ)
    → v < 256
    → a < 256
    → rest < 16
    → rl v (af_of a z n h c rest) ≡ (
      v * 2 % 256 + of_bool c,
      af_of a (v * 2 % 256 + of_bool c == 0) false false (leb 128 v) rest,
    )
unfolding rl
rl_lem v a z n h c rest v_lt lt le =
    simp (get_c a z n h c rest le, left_bits v c v_lt, top_bit v v_lt)
      (ap (λ w. (v * 2 % 256 + of_bool c, w))
        (set_znhc_lem a z n h c (v * 2 % 256 + of_bool c == 0) false false (leb 128 v) rest lt le))

rr_lem :
    (v a : ℕ) (z n h c : Bool) (rest : ℕ)
    → v < 256
    → a < 256
    → rest < 16
    → rr v (af_of a z n h c rest) ≡ (
      v / 2 + 128 * of_bool c,
      af_of a (v / 2 + 128 * of_bool c == 0) false false (v % 2 == 1) rest,
    )
unfolding rr
rr_lem v a z n h c rest v_lt lt le =
    simp (get_c a z n h c rest le, right_bits v c v_lt, low_bit v)
      (ap (λ w. (v / 2 + 128 * of_bool c, w))
        (set_znhc_lem a z n h c (v / 2 + 128 * of_bool c == 0) false false (v % 2 == 1) rest lt le))

-- `RR` undoes `RL`: on any byte, and any accumulator and flags, the byte and the carry come back,
-- the accumulator stays, and N and H are clear.
pub rr-rl :
    (v a : ℕ) (z n h c : Bool) (rest : ℕ)
    → v < 256
    → a < 256
    → rest < 16
    → rr (rl v (af_of a z n h c rest)).0 (rl v (af_of a z n h c rest)).1
      ≡ (v, af_of a (v == 0) false false c rest)
rr-rl v a z n h c rest v_lt lt le =
    let w : ℕ = v * 2 % 256 + of_bool c in
    let w_lt : w < 256 = ground arith in
    let back : w / 2 + 128 * of_bool (leb 128 v) ≡ v = ground arith in
    let carry : (w % 2 == 1) ≡ c = ground arith in
    simp (rl_lem v a z n h c rest v_lt lt le)
      (simp (rr_lem w a (w == 0) false false (leb 128 v) rest w_lt lt le) (simp (back, carry) refl))
