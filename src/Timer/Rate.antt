-- ===== src/Timer/Rate.antt =====
-- TIMA's rate: what any number of clocks does to a timer that does not overflow.
use zenith_gb.Base.{
  ℕ, zero, suc, ◌+◌, ◌*◌, ◌/◌, ◌%◌, ◌<◌, ◌≡◌, ◌∙◌, false, u16, if◌then◌else◌, arith,
}
use mathlib.Core.Path.{ap₂}
use zenith_gb.Soc.Context.{ClockContext}
use zenith_gb.Timer.{Timer, clock}
use zenith_gb.Timer.Edge.{period, enabled, crossed, IsSynced, IsValid, clock-IsValid, clock_counts}

-- `n` machine cycles in a row.
unfoldable pub run : ℕ → Timer → ClockContext → Timer × ClockContext
run zero t ctx = (t, ctx)
run (suc n) t ctx = let (c, ctx') = clock t ctx in run n c ctx'

-- The multiples of the period reached in `n` machine cycles.
unfoldable pub ticks : ℕ → ℕ → ℕ → ℕ
ticks tac div n = if enabled tac then (div % period tac + 4 * n) / period tac else 0

ticks-suc :
    (tac div n : ℕ)
    → div % 4 ≡ 0
    → ticks tac div (suc n) ≡ crossed tac div + ticks tac (u16 (div + 4)) n
unfolding ticks crossed
ticks-suc tac div n h = ground arith

ticks-zero : (tac div : ℕ) → ticks tac div 0 ≡ 0
unfolding ticks
ticks-zero tac div = ground arith

-- From a timer in range and synced, with no overflow pending, until TIMA would wrap: `n` clocks add
-- to TIMA the number of multiples of the period that the divider reaches in `4 * n` steps, and none
-- if the timer is disabled, and `4 * n` to the divider as a word; TAC and TMA stay, no overflow is
-- marked, no interrupt is raised, and the timer stays synced and in range.
pub run_counts :
    (n : ℕ) (t : Timer) (ctx : ClockContext)
    → IsValid t
    → IsSynced t
    → t.tima_overflow ≡ false
    → t.tima + ticks t.tac t.div n < 256
    → let (c, ctx') = run n t ctx in
      (c.tima ≡ t.tima + ticks t.tac t.div n)
      × (c.div ≡ u16 (t.div + 4 * n))
      × (c.tima_overflow ≡ false)
      × (ctx' ≡ ctx)
      × (c.tac ≡ t.tac)
      × (c.tma ≡ t.tma)
      × IsSynced c
      × IsValid c
unfolding run
run_counts zero t ctx v s o h = ground (arith, ticks-zero t.tac t.div)
run_counts (suc n) t ctx v s o h =
    let (tima, over, same, div, tac, tma, synced) = clock_counts t ctx v s o in
    let c : Timer = (clock t ctx).0 in
    let more = ticks-suc t.tac t.div n v.div_step in
    let next : ticks c.tac c.div n ≡ ticks t.tac (u16 (t.div + 4)) n =
      ap₂ (λ a b. ticks a b n) tac div in
    let calm : c.tima_overflow ≡ false = over ∙ ground arith in
    let rest = run_counts n c (clock t ctx).1 (clock-IsValid t ctx v) synced calm (ground arith) in
    let same_after : (run n c (clock t ctx).1).1 ≡ ctx = rest.3 ∙ same in
    (omega arith, omega arith, rest.2, same_after, rest.4 ∙ tac, rest.5 ∙ tma, rest.6, rest.7)
