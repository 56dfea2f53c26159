-- ===== src/Timer/Tests.antt =====
-- The timer one cycle before an overflow, with TAC selecting a period of 16.
use zenith_gb.Base.{◌+◌, ◌*◌, ◌%◌, ◌<◌, ◌≡◌, refl, true, false, u16, ◌==◌, arith}
use zenith_gb.Soc.Context.{ClockContext, set_interrupt}
use zenith_gb.Timer.{Timer, clock, check_increment, reload, div_bit, clock_write_tima}
use zenith_gb.Timer.Edge.{signal, crossed, IsSynced, IsValid, clock_counts}
use zenith_gb.Timer.Rate.{run, ticks, run_counts}
use zenith_gb.Timer.Overflow.{overflow_reload, clock_write_tima_lem}

abbrev quiet_ctx : ClockContext
quiet_ctx = record { interrupts = 0; events = 0 }

abbrev brim : Timer
brim = record { and_result = true; tima_overflow = false; tac = 5; div = 12; tima = 255; tma = 7 }

brim-IsValid : IsValid brim
brim-IsValid = omega arith

brim-IsSynced : IsSynced brim
unfolding signal
brim-IsSynced = refl

brim-crossed : brim.tima + crossed 5 12 ≡ 256
unfolding crossed
brim-crossed = refl

clock_counts_example :
    let (c, ctx') = clock brim quiet_ctx in
    (c.tima ≡ (255 + crossed 5 12) % 256)
    × (c.tima_overflow ≡ (255 + crossed 5 12 == 256))
    × (ctx' ≡ quiet_ctx)
    × (c.div ≡ u16 (12 + 4))
    × (c.tac ≡ 5)
    × (c.tma ≡ 7)
    × IsSynced c
clock_counts_example = clock_counts brim quiet_ctx brim-IsValid brim-IsSynced refl

overflow_reload_example :
    let (c, ctx') = clock brim quiet_ctx in
    let (d, ctx'') = clock c ctx' in
    (c.tima ≡ 0)
    × (ctx' ≡ quiet_ctx)
    × (d.tima ≡ 7)
    × (ctx'' ≡ set_interrupt quiet_ctx 4)
    × (d.tima_overflow ≡ false)
overflow_reload_example =
    overflow_reload brim quiet_ctx brim-IsValid brim-IsSynced refl brim-crossed

abbrev early : Timer
early = record brim { tima = 10 }

early-IsValid : IsValid early
early-IsValid = omega arith

early-IsSynced : IsSynced early
unfolding signal
early-IsSynced = refl

early-fits : early.tima + ticks 5 12 100 < 256
unfolding ticks
early-fits = omega arith

run_counts_example :
    let (c, ctx') = run 100 early quiet_ctx in
    (c.tima ≡ 10 + ticks 5 12 100)
    × (c.div ≡ u16 (12 + 4 * 100))
    × (c.tima_overflow ≡ false)
    × (ctx' ≡ quiet_ctx)
    × (c.tac ≡ 5)
    × (c.tma ≡ 7)
    × IsSynced c
    × IsValid c
run_counts_example = run_counts 100 early quiet_ctx early-IsValid early-IsSynced refl early-fits

-- 412 divider steps reach 25 multiples of 16.
run-early : (run 100 early quiet_ctx).0.tima ≡ 35
unfolding run clock reload check_increment div_bit
run-early = refl

clock_write_tima_lem_example :
    let (w, ctx') = clock_write_tima brim 99 quiet_ctx in (w.tima ≡ 99) × (ctx' ≡ quiet_ctx)
clock_write_tima_lem_example = clock_write_tima_lem brim 99 quiet_ctx brim-IsValid brim-IsSynced

early-calm : (clock early quiet_ctx).0.tima_overflow ≡ false
unfolding clock reload check_increment div_bit
early-calm = refl
