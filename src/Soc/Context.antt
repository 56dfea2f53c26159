-- ===== src/Soc/Context.antt =====
-- `ClockContext` of src/soc/soc.rs and the interrupt bits of src/soc/interrupt.rs: the request
-- lines that a clocked part may raise.
use zenith_gb.Base.{ℕ, bit_or}

pub record ClockContext : Type 0 where
  pub interrupts : ℕ
  pub events : ℕ

-- `SocEventBits`, by its values.
pub data SocEventBits : Type 0 where
  event_none vsync vsync_and_exit : SocEventBits

abbrev pub event_code : SocEventBits → ℕ
event_code event_none = 0
event_code vsync = 1
event_code vsync_and_exit = 2

unfoldable pub set_interrupt : ClockContext → ℕ → ClockContext
set_interrupt ctx bit = record ctx { interrupts = bit_or ctx.interrupts bit }

unfoldable pub set_events : ClockContext → SocEventBits → ClockContext
set_events ctx e = record ctx { events = bit_or ctx.events (event_code e) }

abbrev pub interrupt_bit_vblank : ℕ
interrupt_bit_vblank = 1

abbrev pub interrupt_bit_lcd : ℕ
interrupt_bit_lcd = 2

abbrev pub interrupt_bit_timer : ℕ
interrupt_bit_timer = 4

abbrev pub interrupt_bit_serial : ℕ
interrupt_bit_serial = 8

abbrev pub interrupt_bit_joypad : ℕ
interrupt_bit_joypad = 16
