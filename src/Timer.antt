-- ===== src/Timer.antt =====
-- src/timer/timer.rs: the divider, the counter TIMA and its delayed reload.
pub mod Edge
pub mod Overflow
pub mod Rate
mod Tests
use zenith_gb.Base.{
  ℕ, ◌+◌, ◌%◌, Bool, true, false, not, ◌&&◌, bit_and, bit_or, u8, u16, ◌>>>◌, ◌==◌, ◌!=◌,
  if◌then◌else◌,
}
use zenith_gb.Soc.Context.{ClockContext, set_interrupt, interrupt_bit_timer}

pub record Timer : Type 0 where
  pub and_result : Bool
  pub tima_overflow : Bool
  pub tac : ℕ
  pub div : ℕ
  pub tima : ℕ
  pub tma : ℕ

pub new : Timer
new = record { and_result = false; tima_overflow = false; tac = 0; div = 0xabcc; tima = 0; tma = 0 }

-- `div_bit`: the divider bit that TAC selects. The two low bits of TAC leave no other case.
pub div_bit : ℕ → ℕ → Bool
div_bit tac_low_2 div =
    if tac_low_2 == 0
    then bit_and div 512 != 0
    else if tac_low_2 == 1
    then bit_and div 8 != 0
    else if tac_low_2 == 2
    then bit_and div 32 != 0
    else bit_and div 128 != 0

-- `let (tima_next, of) = self.tima.overflowing_add(1)`
abbrev bump : Timer → Timer
bump t = record t {
  tima = u8 (t.tima + 1);
  tima_overflow = if t.tima + 1 == 256 then true else t.tima_overflow;
}

pub check_increment : Timer → Timer
check_increment t =
    let timer_enable = bit_and t.tac 4 != 0 in
    let now = div_bit (bit_and t.tac 3) t.div && timer_enable in
    record (if t.and_result && not now then bump t else t) { and_result = now }

-- The first half of `clock`: the reload of the cycle after an overflow.
pub reload : Timer → ClockContext → Timer × ClockContext
reload t ctx =
    if t.tima_overflow
    then (record t { tima = t.tma; tima_overflow = false }, set_interrupt ctx interrupt_bit_timer)
    else (t, ctx)

pub clock : Timer → ClockContext → Timer × ClockContext
clock t ctx =
    let (r, ctx') = reload t ctx in (check_increment (record r { div = u16 (r.div + 4) }), ctx')

pub read_tac : Timer → ℕ
read_tac t = bit_or t.tac 0xf8

pub read_div : Timer → ℕ
read_div t = u8 (t.div >>> 8)

pub read_tima : Timer → ℕ
read_tima t = t.tima

pub read_tma : Timer → ℕ
read_tma t = t.tma

pub clock_write_tac : Timer → ℕ → ClockContext → Timer × ClockContext
clock_write_tac t data_in ctx =
    let (c, ctx') = clock t ctx in (check_increment (record c { tac = bit_and data_in 7 }), ctx')

-- The written value is ignored.
pub clock_write_div : Timer → ℕ → ClockContext → Timer × ClockContext
clock_write_div t _ ctx =
    let (c, ctx') = clock t ctx in (record (check_increment c) { div = 0 }, ctx')

pub clock_write_tima : Timer → ℕ → ClockContext → Timer × ClockContext
clock_write_tima t data_in ctx =
    let (c, ctx') = clock t ctx in
    (if not t.tima_overflow then record c { tima_overflow = false; tima = data_in } else c, ctx')

pub clock_write_tma : Timer → ℕ → ClockContext → Timer × ClockContext
clock_write_tma t data_in ctx =
    let (c, ctx') = clock t ctx in
    let d = record c { tma = data_in } in
    (if t.tima_overflow then record d { tima = data_in } else d, ctx')

pub reset_div : Timer → Timer
reset_div t = record t { div = 0 }
