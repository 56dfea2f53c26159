-- ===== src/Soc/Clock.antt =====
-- One machine cycle: the transfers, then the parts in their order.
use zenith_gb.Base.{ℕ, ◌+◌, Bool, not, ◌||◌, Option, some, ◌==◌, bit_and, ◌>>=◌, if◌then◌else◌}
use zenith_gb.Soc.Context.{ClockContext}
use zenith_gb.Soc.State.{Parts, Soc, mbc_clock}
use zenith_gb.Soc.Dma.{clock_dma, clock_hdma}
use zenith_gb.Timer.{Timer}
use zenith_gb.Timer
use zenith_gb.Ppu.Modes
use zenith_gb.Serial
use zenith_gb.Apu.Unit

-- At double speed a part on the 4 MHz clock runs every other cycle.
unfoldable pub clock_4_mhz :
    (double_speed : Bool) → (cycle : ℕ) → (Parts → Option Parts) → Parts → Option Parts
clock_4_mhz double_speed cycle cb p =
    if not double_speed || bit_and cycle 1 == 0 then cb p else some p

-- The request lines that the parts share: the interrupt flags and the events.
abbrev pub context : Parts → ClockContext
context p = record { interrupts = p.if_flags; events = p.event_bits }

abbrev with_context : ClockContext → Parts → Parts
with_context ctx p = record p { if_flags = ctx.interrupts; event_bits = ctx.events }

-- `exit` is what `vsync` answers.
unfoldable pub clock_ppu : (exit : Bool) → Parts → Option Parts
clock_ppu exit p =
    Modes.clock exit p.ppu (context p)
    >>= (λ (ppu, ctx). some (with_context ctx (record p { ppu = ppu })))

unfoldable pub clock_timer : (Timer → ClockContext → Timer × ClockContext) → Parts → Parts
clock_timer cb p =
    let (timer, ctx) = cb p.timer (context p) in with_context ctx (record p { timer = timer })

-- The samples are left out.
unfoldable pub clock_apu : Parts → Option Parts
clock_apu p = Unit.clock p.apu >>= (λ (apu, samples). some (record p { apu = apu }))

-- The printer's images are left out.
unfoldable pub clock_serial : Parts → Option Parts
clock_serial p =
    Serial.clock p.serial (context p)
    >>= (λ c. some (with_context c.ctx (record p { serial = c.serial })))

unfoldable pub clock_parts :
    (exit : Bool)
    → (Timer → ClockContext → Timer × ClockContext)
    → (cycle : ℕ) → Parts
    → Option Parts
clock_parts exit cb cycle p0 = do
  let double_speed = p0.cpu_speed
  p ← clock_dma p0
  p ← clock_4_mhz double_speed cycle clock_hdma p
  p ← clock_4_mhz double_speed cycle (clock_ppu exit) p
  let q = clock_timer cb p
  r ← clock_4_mhz double_speed cycle (λ x. some (record x { mbc = mbc_clock x.mbc })) q
  r ← clock_4_mhz double_speed cycle clock_apu r
  clock_serial r

-- `clock`, and with a write of the timer in the place of its clock, `clock_timer_write`.
unfoldable pub clock_with :
    (exit : Bool) → (Timer → ClockContext → Timer × ClockContext) → Soc → Option Soc
clock_with exit cb s =
    clock_parts exit cb s.cycles s.parts
    >>= (λ p. some (record { cycles = s.cycles + 1; parts = p }))

unfoldable pub clock : (exit : Bool) → Soc → Option Soc
clock exit s = clock_with exit Timer.clock s

unfoldable pub clock_timer_write :
    (exit : Bool) → (Timer → ℕ → ClockContext → Timer × ClockContext) → ℕ → Soc → Option Soc
clock_timer_write exit cb byte s = clock_with exit (λ t ctx. cb t byte ctx) s
