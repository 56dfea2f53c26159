-- ===== src/Util/Bytes.antt =====
-- A word and its two bytes determine each other; setting one leaves the other.
use zenith_gb.Base.{
  ℕ, ◌+◌, ◌*◌, ◌/◌, ◌%◌, ◌<◌, ◌≡◌, Bool, not, ◌&&◌, bit_and, bit_or, arith, if◌then◌else◌, of_bool,
}
use zenith_gb.Base.Bits.{bit_and-mask, bit_and-shifted, bit_or-fields, bit_or_comm}
use zenith_gb.Util.{get_high, get_low, set_high, set_low, value, Buttons, calc_button_bits}

-- The bytes of a word, as quotient and remainder.
pub get_high_lem : (w : ℕ) → w < 65536 → get_high w ≡ w / 256
unfolding get_high
get_high_lem w h = omega arith

pub get_low_lem : (w : ℕ) → get_low w ≡ w % 256
unfolding get_low
get_low_lem w = omega (arith, bit_and-mask 8 w)

pub get_high-lt : (w : ℕ) → get_high w < 256
unfolding get_high
get_high-lt w = omega arith

pub get_low-lt : (w : ℕ) → get_low w < 256
unfolding get_low
get_low-lt w = omega arith

pub value_lem : (high low : ℕ) → low < 256 → value high low ≡ high * 256 + low
unfolding value
value_lem high low h = bit_or-fields 8 high low h

pub set_high_lem : (w v : ℕ) → v < 256 → set_high w v ≡ v * 256 + w % 256
unfolding set_high
set_high_lem w v h =
    ground
      (arith, bit_and-mask 8 w, bit_or_comm (bit_and w 0xff) (v * 256), bit_or-fields 8 v (w % 256))

pub set_low_lem : (w v : ℕ) → w < 65536 → v < 256 → set_low w v ≡ w / 256 * 256 + v
unfolding set_low
set_low_lem w v hw h =
    ground (arith, bit_and-shifted 8 w 0xff, bit_and-mask 8 (w / 256), bit_or-fields 8 (w / 256) v)

-- Splitting a word and joining its bytes gives the word, and joining two bytes and splitting the
-- word gives the bytes.
pub value_roundtrip :
    (w high low : ℕ)
    → w < 65536
    → high < 256
    → low < 256
    → (value (get_high w) (get_low w) ≡ w)
      × (get_high (value high low) ≡ high)
      × (get_low (value high low) ≡ low)
value_roundtrip w high low hw hh hl = ground (
  arith,
  get_high_lem w,
  get_low_lem w,
  value_lem (get_high w) (get_low w),
  value_lem high low,
  get_high_lem (value high low),
  get_low_lem (value high low),
)

-- Setting one byte of a word sets that byte, leaves the other, and stays a word.
pub set_bytes :
    (w v : ℕ)
    → w < 65536
    → v < 256
    → (get_high (set_high w v) ≡ v)
      × (get_low (set_high w v) ≡ get_low w)
      × (get_low (set_low w v) ≡ v)
      × (get_high (set_low w v) ≡ get_high w)
      × (set_high w v < 65536)
      × (set_low w v < 65536)
set_bytes w v hw hv = ground (
  arith,
  get_high_lem w,
  get_low_lem w,
  set_high_lem w v,
  set_low_lem w v,
  get_high_lem (set_high w v),
  get_low_lem (set_high w v),
  get_high_lem (set_low w v),
  get_low_lem (set_low w v),
)

-- What the joypad register is meant to show of one line: it reads high unless a selected group has
-- its button held.
abbrev line_level : Bool → Bool → Bool → Bool → ℕ
line_level sel_buttons sel_dpad button dir =
    if sel_buttons && sel_dpad
    then 1
    else if sel_buttons && button
    then 0
    else if sel_dpad && dir
    then 0
    else 1

-- Four separate lines joined by `|` are their weighted sum, in the order of each group.
four_lines :
    (p q r s : Bool)
    → bit_and
        (bit_or (bit_or (bit_or (of_bool p * 8) (of_bool q * 4)) (of_bool r * 1)) (of_bool s * 2))
        15
      ≡ of_bool p * 8 + of_bool q * 4 + of_bool r + of_bool s * 2
four_lines p q r s = ground arith

four_lines_dpad :
    (p q r s : Bool)
    → bit_and
        (bit_or (bit_or (bit_or (of_bool p * 8) (of_bool q * 4)) (of_bool r * 2)) (of_bool s * 1))
        15
      ≡ of_bool p * 8 + of_bool q * 4 + of_bool r * 2 + of_bool s
four_lines_dpad p q r s = ground arith

-- Bit by bit the joypad lines are those of the one group that is selected; with both groups or
-- with none selected all four read high.
pub calc_button_bits_lem :
    (g : Buttons) (sb sd : Bool)
    → calc_button_bits g sb sd
      ≡ line_level sb sd g.start g.down * 8
        + line_level sb sd g.select g.up * 4
        + line_level sb sd g.b g.left * 2
        + line_level sb sd g.a g.right
unfolding calc_button_bits
calc_button_bits_lem g sb sd = ground (
  arith,
  four_lines (not g.start) (not g.select) (not g.a) (not g.b),
  four_lines_dpad (not g.down) (not g.up) (not g.left) (not g.right),
)
