-- ===== src/Timer/Overflow.antt =====
-- TIMA's overflow: the reload one machine cycle later, and what a register write in either cycle
-- does to it.
use zenith_gb.Base.{
  ℕ, ◌+◌, ◌%◌, ◌≤◌, ◌<◌, ◌≡◌, refl, ap, ◌∙◌, inl, inr, Bool-cases, true, false, not, ◌&&◌, u8, u16,
  ◌==◌, if◌then◌else◌, arith,
}
use zenith_gb.Base.Bits.{bit_and-mask}
use mathlib.Core.Path.{ap₂}
use zenith_gb.Soc.Context.{ClockContext, set_interrupt}
use zenith_gb.Timer.{
  Timer, check_increment, reload, clock, clock_write_tac, clock_write_div, clock_write_tima,
}
use zenith_gb.Timer.Edge.{
  signal, crossed, IsSynced, IsValid, clock-IsValid, clock_counts, check_increment_lem,
  edge-crossed,
}

-- Every clock leaves the edge state equal to the signal.
pub clock-IsSynced : (t : Timer) (ctx : ClockContext) → IsSynced (clock t ctx).0
unfolding clock
clock-IsSynced t ctx =
    let r : Timer = (reload t ctx).0 in (check_increment_lem (record r { div = u16 (r.div + 4) })).0

-- A multiple of the period is not followed by another within four steps.
not-crossed_twice :
    (tac div : ℕ)
    → div < 65536
    → div % 4 ≡ 0
    → crossed tac div ≡ 1
    → crossed tac (u16 (div + 4)) ≡ 0
unfolding crossed
not-crossed_twice tac div w h c = ground arith

crossed-le-one : (tac div : ℕ) → crossed tac div ≤ 1
unfolding crossed
crossed-le-one tac div = ground arith

-- A clock with a reload pending: TMA is loaded and the timer interrupt is requested.
clock_reloads :
    (t : Timer) (ctx : ClockContext)
    → IsValid t
    → IsSynced t
    → t.tima_overflow ≡ true
    → let (c, ctx') = clock t ctx in
      (c.tima ≡ (t.tma + crossed t.tac t.div) % 256)
      × (ctx' ≡ set_interrupt ctx 4)
      × (c.tima_overflow ≡ (t.tma + crossed t.tac t.div == 256))
      × IsSynced c
unfolding clock reload
clock_reloads t ctx v s o = ground (
  arith,
  check_increment_lem (record t { tima = t.tma; tima_overflow = false; div = u16 (t.div + 4) }),
  edge-crossed t.tac t.div,
)

-- For a timer in range and synced, with no overflow pending: a clock in which the signal of the
-- divider brings TIMA to 256 leaves it at 0 and requests nothing; the clock after it loads TMA,
-- requests the timer interrupt and nothing else, and ends the overflow.
pub overflow_reload :
    (t : Timer) (ctx : ClockContext)
    → IsValid t
    → IsSynced t
    → t.tima_overflow ≡ false
    → t.tima + crossed t.tac t.div ≡ 256
    → let (c, ctx') = clock t ctx in
      let (d, ctx'') = clock c ctx' in
      (c.tima ≡ 0)
      × (ctx' ≡ ctx)
      × (d.tima ≡ t.tma)
      × (ctx'' ≡ set_interrupt ctx 4)
      × (d.tima_overflow ≡ false)
overflow_reload t ctx v s o h =
    let (tima, over, same, div, tac, tma, synced) = clock_counts t ctx v s o in
    let c : Timer = (clock t ctx).0 in
    let second = clock_reloads c (clock t ctx).1 (clock-IsValid t ctx v) synced (ground arith) in
    let once =
      not-crossed_twice t.tac t.div v.div_word v.div_step
        (omega (arith, crossed-le-one t.tac t.div, v.tima_byte)) in
    let still : crossed c.tac c.div ≡ 0 = ground (arith, once) in
    let raised = second.1 ∙ ap (λ k. set_interrupt k 4) same in
    (omega arith, same, omega arith, raised, second.2 ∙ ground arith)

-- A write to TIMA of a synced timer in range stores the written value, unless a reload was pending:
-- then the value is lost, TMA is loaded and the timer interrupt is requested as in any other clock.
pub clock_write_tima_lem :
    (t : Timer) (v : ℕ) (ctx : ClockContext)
    → IsValid t
    → IsSynced t
    → let (w, ctx') = clock_write_tima t v ctx in
      (w.tima ≡ (if t.tima_overflow then (t.tma + crossed t.tac t.div) % 256 else v))
      × (ctx' ≡ (if t.tima_overflow then set_interrupt ctx 4 else ctx))
unfolding clock_write_tima
clock_write_tima_lem t v ctx valid s = elim (Bool-cases t.tima_overflow) [
  | inl p ↦ ground (arith, clock_reloads t ctx valid s p)
  | inr p ↦ ground (arith, clock_counts t ctx valid s p)
]

-- Where no reload is pending, a write of a byte to TIMA of a synced timer in range cancels an
-- overflow of the same cycle: the next clock requests no interrupt and counts on from the written
-- value.
pub clock_write_tima_cancels :
    (t : Timer) (v : ℕ) (ctx : ClockContext)
    → IsValid t
    → IsSynced t
    → t.tima_overflow ≡ false
    → v < 256
    → let (w, ctx') = clock_write_tima t v ctx in
      let (n, ctx'') = clock w ctx' in
      (n.tima ≡ (v + crossed t.tac (u16 (t.div + 4))) % 256) × (ctx'' ≡ ctx)
unfolding clock_write_tima
clock_write_tima_cancels t v ctx valid s o h =
    let (tima, over, same, div, tac, tma, synced) = clock_counts t ctx valid s o in
    let c : Timer = (clock t ctx).0 in
    let c_valid : IsValid c = clock-IsValid t ctx valid in
    let w : Timer = record c { tima_overflow = false; tima = v } in
    let w_valid : IsValid w = ground (arith, c_valid) in
    let n = clock_counts w (clock t ctx).1 w_valid synced refl in
    simp o (n.0 ∙ ap (λ k. (v + k) % 256) (ap₂ crossed tac div), n.2 ∙ same)

-- Switching the timer off, or to another divider bit, ticks TIMA exactly when the signal that was
-- selected is high after the cycle's clock and the newly selected one is low.
pub clock_write_tac_lem :
    (t : Timer) (v : ℕ) (ctx : ClockContext)
    → let (c, ctx') = clock t ctx in
      let (w, ctx'') = clock_write_tac t v ctx in
      (w.tac ≡ v % 8)
      × (w.tima
          ≡ (if signal c.tac c.div && not (signal (v % 8) c.div) then u8 (c.tima + 1) else c.tima))
      × IsSynced w
      × (ctx'' ≡ ctx')
unfolding clock_write_tac
clock_write_tac_lem t v ctx = ground (
  arith,
  bit_and-mask 3 v,
  clock-IsSynced t ctx,
  check_increment_lem (record (clock t ctx).0 { tac = v % 8 }),
)

low-signal : (tac : ℕ) → signal tac 4 ≡ false
unfolding signal
low-signal tac = ground arith

-- A write to DIV clears the divider whatever value is written. The bit that this takes away is
-- counted by the clock that follows: with no overflow in the write's own clock, TIMA ticks then
-- exactly when the signal was high after that clock.
pub clock_write_div_lem :
    (t : Timer) (v : ℕ) (ctx : ClockContext)
    → (clock t ctx).0.tima_overflow ≡ false
    → let (c, ctx') = clock t ctx in
      let (w, ctx'') = clock_write_div t v ctx in
      (w.div ≡ 0)
      × (w.tima ≡ c.tima)
      × (ctx'' ≡ ctx')
      × ((clock w ctx'').0.tima ≡ (if signal c.tac c.div then u8 (c.tima + 1) else c.tima))
unfolding clock_write_div clock reload
clock_write_div_lem t v ctx o =
    let c : Timer = (clock t ctx).0 in
    let i : Timer = check_increment c in
    let steady = check_increment_lem c in
    let quiet : i.tima_overflow ≡ false = ground (arith, clock-IsSynced t ctx) in
    let same : i.tima ≡ c.tima = ground (arith, clock-IsSynced t ctx) in
    (
      refl,
      same,
      refl,
      ground (
        arith,
        low-signal c.tac,
        check_increment_lem (record i { div = 4 }),
        check_increment_lem c,
      ),
    )
