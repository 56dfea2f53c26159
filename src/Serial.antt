-- ===== src/Serial.antt =====
-- src/serial/serial.rs: the serial port, with a printer at its other end.
--
-- A transfer of the port may make the printer print: the images come with the new state.
pub mod Printer
pub mod Transfer
mod Tests
use zenith_gb.Base.{
  ℕ, ◌+◌, ◌-◌, ◌*◌, ◌/◌, ◌%◌, ◌^◌, Bool, true, false, ◌&&◌, ◌||◌, not, List, [], Option, none, some,
  bit_and, bit_or, u8, ◌<<<◌, ◌>>>◌, of_bool, ◌==◌, ◌!=◌, checked_sub, ◌>>=◌, if◌then◌else◌,
}
use zenith_gb.Soc.Context.{ClockContext, set_interrupt, interrupt_bit_serial}
use zenith_gb.Serial.Printer

pub record Serial : Type 0 where
  pub sb : ℕ
  pub shift_counter : ℕ
  pub incoming : Option ℕ
  pub reg_enable : Bool
  pub reg_select : Bool
  pub printer : Printer.Printer

unfoldable pub new : Serial
new = record {
  sb = 0;
  shift_counter = 0;
  incoming = none;
  reg_enable = false;
  reg_select = false;
  printer = Printer.new;
}

-- What a clock leaves: the port, the request lines, and the images printed.
pub record Clocked : Type 0 where
  pub serial : Serial
  pub ctx : ClockContext
  pub images : List Printer.Image

pub finish_transmission : Serial → Serial
finish_transmission s = record s { reg_enable = false; shift_counter = 0; incoming = none }

-- The `if` on the shift counter at 0: the whole byte goes out and one comes in.
pub exchange : Serial → Option (Serial × List Printer.Image)
exchange s =
    if s.shift_counter == 0
    then (Printer.send_byte s.printer s.sb >>= λ sent.
        (let (printer, incoming) = Printer.take sent.0 in
          some (record s { printer = printer; incoming = incoming }, sent.1)))
    else some (s, [])

-- `sb` with one more bit of the incoming byte.
abbrev pub shift_bit : (sb incoming shift_counter : ℕ) → Option ℕ
shift_bit sb incoming shift_counter = checked_sub 7 shift_counter >>= λ curr_bit.
    some (bit_or (u8 (sb <<< 1)) (bit_and (incoming >>> curr_bit) 0x1))

-- The end of `clock`, on the incoming byte.
pub shift : Serial → Option ℕ → Option Serial
shift s none = some s
shift s (some incoming) = shift_bit s.sb incoming s.shift_counter >>= λ sb.
    some (record s { sb = sb; shift_counter = s.shift_counter + 1 })

unfoldable pub clock : Serial → ClockContext → Option Clocked
clock s ctx =
    if not s.reg_enable || not s.reg_select
    then some (record { serial = s; ctx = ctx; images = [] })
    else if s.shift_counter == 8
    then some (record {
      serial = finish_transmission s;
      ctx = set_interrupt ctx interrupt_bit_serial;
      images = [];
    })
    else (exchange s >>= λ r.
        shift r.0 r.0.incoming >>= λ s'. some (record { serial = s'; ctx = ctx; images = r.1 }))

pub write_sb : Serial → ℕ → Serial
write_sb s byte = record s { sb = byte }

pub read_sc : Serial → ℕ
read_sc s = bit_or (bit_or (of_bool s.reg_enable <<< 7) (of_bool s.reg_select)) 0x7e

pub write_sc : Serial → ℕ → Serial
write_sc s byte = record s {
  reg_enable = bit_and byte 0x80 != 0;
  reg_select = bit_and byte 0x1 != 0;
}
