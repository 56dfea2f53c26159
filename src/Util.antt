-- ===== src/Util.antt =====
-- src/util/util.rs: the two bytes of a 16-bit word, and the joypad lines.
pub mod Bytes
mod Tests
use zenith_gb.Base.{
  ℕ, ◌+◌, ◌-◌, ◌≡◌, Bool, true, false, not, ◌&&◌, List, bit_and, bit_or, u8, ◌<<<◌, ◌>>>◌,
  if◌then◌else◌, of_bool,
}

unfoldable pub get_high : ℕ → ℕ
get_high value = u8 (value >>> 8)

unfoldable pub get_low : ℕ → ℕ
get_low value = u8 (bit_and value 0xff)

-- `set_high` and `set_low` return the word that they leave in `dst`.
pub set_high : ℕ → ℕ → ℕ
set_high dst value = bit_or (bit_and dst 0xff) (value <<< 8)

pub set_low : ℕ → ℕ → ℕ
set_low dst value = bit_or (bit_and dst 0xff00) value

unfoldable pub value : ℕ → ℕ → ℕ
value high low = bit_or (high <<< 8) low

-- `[bool; GbButtonMax]`, by the names of `GbButton`.
pub record Buttons : Type 0 where
  pub up : Bool
  pub right : Bool
  pub left : Bool
  pub down : Bool
  pub a : Bool
  pub b : Bool
  pub start : Bool
  pub select : Bool

-- A held button pulls its line low.
abbrev line : Bool → ℕ → ℕ
line pressed k = of_bool (not pressed) <<< k

pub calc_button_bits : Buttons → Bool → Bool → ℕ
calc_button_bits buttons select_buttons select_dpad = bit_and button_bits 0xf
  where
    open buttons use {up, right, left, down, a, b, start, select}

    button_bits : ℕ
    button_bits =
        if select_buttons && select_dpad
        then 0xf
        else if select_buttons
        then bit_or (bit_or (bit_or (line start 3) (line select 2)) (line a 0)) (line b 1)
        else if select_dpad
        then bit_or (bit_or (bit_or (line down 3) (line up 2)) (line left 1)) (line right 0)
        else 0xf
