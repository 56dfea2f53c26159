-- ===== src/Cpu/Flags.antt =====
-- The pair AF by its accumulator and flags.
use zenith_gb.Base.{
  ℕ, ◌+◌, ◌-◌, ◌*◌, ◌/◌, ◌%◌, ◌<◌, ◌≡◌, refl, ap, ◌∙◌, Bool, true, false, ◌&&◌, bit_and, bit_or, u8,
  of_bool, ◌==◌, arith, all_below_sound,
}
use zenith_gb.Base.Bits.{bit_and-mask, bit_and-bit}
use zenith_gb.Util.{get_low, set_high, set_low}
use zenith_gb.Util.Bytes.{get_low_lem, set_high_lem, set_low_lem}
use zenith_gb.Cpu.{flag_c, flag_h, flag_n, flag_z, get_a, get_f, get_flag, set_flag}

-- The low byte of AF: the flags above four bits that are not used.
abbrev pub flags : (z n h c : Bool) → ℕ → ℕ
flags z n h c rest = 128 * of_bool z + 64 * of_bool n + 32 * of_bool h + 16 * of_bool c + rest

abbrev pub af_of : ℕ → (z n h c : Bool) → ℕ → ℕ
af_of a z n h c rest = 256 * a + flags z n h c rest

-- Setting and clearing the bit of value `flag` in a byte.
abbrev put : (flag low : ℕ) → Bool → ℕ
put flag low value = low - low / flag % 2 * flag + of_bool value * flag

abbrev is_put : ℕ → ℕ → Bool
is_put flag low =
    bit_or low flag == put flag low true && bit_and low (255 - flag) == put flag low false

is_put_sound :
    (flag low : ℕ)
    → is_put flag low ≡ true
    → (bit_or low flag ≡ put flag low true) × (bit_and low (255 - flag) ≡ put flag low false)
is_put_sound flag low h = ground arith

put_low : (a low v : ℕ) → a < 256 → low < 256 → v < 256 → set_low (256 * a + low) v ≡ 256 * a + v
put_low a low v lt lt' lt'' = ground (arith, set_low_lem (256 * a + low) v)

set_flag-put :
    (flag : ℕ) (value : Bool) (a low : ℕ)
    → is_put flag low ≡ true
    → a < 256
    → low < 256
    → put flag low value < 256
    → set_flag flag value (256 * a + low) ≡ 256 * a + put flag low value
unfolding set_flag get_f
set_flag-put flag true a low h a_lt lt put_lt =
    let low_lem : u8 (bit_and (256 * a + low) 0xff) ≡ low =
      ground (arith, bit_and-mask 8 (256 * a + low)) in
    simp (low_lem, (is_put_sound flag low h).0) (put_low a low (put flag low true) a_lt lt put_lt)
set_flag-put flag false a low h a_lt lt put_lt =
    let low_lem : u8 (bit_and (256 * a + low) 0xff) ≡ low =
      ground (arith, bit_and-mask 8 (256 * a + low)) in
    simp (low_lem, (is_put_sound flag low h).1) (put_low a low (put flag low false) a_lt lt put_lt)

pub set_z :
    (a : ℕ) (value z n h c : Bool) (rest : ℕ)
    → a < 256
    → rest < 16
    → set_flag flag_z value (af_of a z n h c rest) ≡ af_of a value n h c rest
set_z a value z n h c rest lt le =
    let low : ℕ = flags z n h c rest in
    let low_lt : low < 256 = ground arith in
    let test = all_below_sound 256 (is_put flag_z) low refl low_lt in
    let e : put flag_z low value ≡ flags value n h c rest = ground arith in
    set_flag-put flag_z value a low test lt low_lt (ground arith) ∙ ap (λ v. 256 * a + v) e

pub set_n :
    (a : ℕ) (value z n h c : Bool) (rest : ℕ)
    → a < 256
    → rest < 16
    → set_flag flag_n value (af_of a z n h c rest) ≡ af_of a z value h c rest
set_n a value z n h c rest lt le =
    let low : ℕ = flags z n h c rest in
    let low_lt : low < 256 = ground arith in
    let test = all_below_sound 256 (is_put flag_n) low refl low_lt in
    let e : put flag_n low value ≡ flags z value h c rest = ground arith in
    set_flag-put flag_n value a low test lt low_lt (ground arith) ∙ ap (λ v. 256 * a + v) e

pub set_h :
    (a : ℕ) (value z n h c : Bool) (rest : ℕ)
    → a < 256
    → rest < 16
    → set_flag flag_h value (af_of a z n h c rest) ≡ af_of a z n value c rest
set_h a value z n h c rest lt le =
    let low : ℕ = flags z n h c rest in
    let low_lt : low < 256 = ground arith in
    let test = all_below_sound 256 (is_put flag_h) low refl low_lt in
    let e : put flag_h low value ≡ flags z n value c rest = ground arith in
    set_flag-put flag_h value a low test lt low_lt (ground arith) ∙ ap (λ v. 256 * a + v) e

pub set_c :
    (a : ℕ) (value z n h c : Bool) (rest : ℕ)
    → a < 256
    → rest < 16
    → set_flag flag_c value (af_of a z n h c rest) ≡ af_of a z n h value rest
set_c a value z n h c rest lt le =
    let low : ℕ = flags z n h c rest in
    let low_lt : low < 256 = ground arith in
    let test = all_below_sound 256 (is_put flag_c) low refl low_lt in
    let e : put flag_c low value ≡ flags z n h value rest = ground arith in
    set_flag-put flag_c value a low test lt low_lt (ground arith) ∙ ap (λ v. 256 * a + v) e

pub get_z :
    (a : ℕ) (z n h c : Bool) (rest : ℕ) → rest < 16 → get_flag (af_of a z n h c rest) flag_z ≡ z
unfolding get_flag
get_z a z n h c rest le =
    let low_lem : get_low (af_of a z n h c rest) ≡ flags z n h c rest =
      ground (arith, get_low_lem (af_of a z n h c rest)) in
    let bit = bit_and-bit 7 (flags z n h c rest) in simp low_lem (ground arith)

pub get_n :
    (a : ℕ) (z n h c : Bool) (rest : ℕ) → rest < 16 → get_flag (af_of a z n h c rest) flag_n ≡ n
unfolding get_flag
get_n a z n h c rest le =
    let low_lem : get_low (af_of a z n h c rest) ≡ flags z n h c rest =
      ground (arith, get_low_lem (af_of a z n h c rest)) in
    let bit = bit_and-bit 6 (flags z n h c rest) in simp low_lem (ground arith)

pub get_h :
    (a : ℕ) (z n h c : Bool) (rest : ℕ) → rest < 16 → get_flag (af_of a z n h c rest) flag_h ≡ h
unfolding get_flag
get_h a z n h c rest le =
    let low_lem : get_low (af_of a z n h c rest) ≡ flags z n h c rest =
      ground (arith, get_low_lem (af_of a z n h c rest)) in
    let bit = bit_and-bit 5 (flags z n h c rest) in simp low_lem (ground arith)

pub get_c :
    (a : ℕ) (z n h c : Bool) (rest : ℕ) → rest < 16 → get_flag (af_of a z n h c rest) flag_c ≡ c
unfolding get_flag
get_c a z n h c rest le =
    let low_lem : get_low (af_of a z n h c rest) ≡ flags z n h c rest =
      ground (arith, get_low_lem (af_of a z n h c rest)) in
    let bit = bit_and-bit 4 (flags z n h c rest) in simp low_lem (ground arith)

pub get_a_lem :
    (a : ℕ) (z n h c : Bool) (rest : ℕ) → a < 256 → rest < 16 → get_a (af_of a z n h c rest) ≡ a
unfolding get_a
get_a_lem a z n h c rest lt le = ground arith

pub set_a_lem :
    (a b : ℕ) (z n h c : Bool) (rest : ℕ)
    → b < 256
    → rest < 16
    → set_high (af_of a z n h c rest) b ≡ af_of b z n h c rest
set_a_lem a b z n h c rest lt le = ground (arith, set_high_lem (af_of a z n h c rest) b)
