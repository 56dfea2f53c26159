-- ===== src/Soc/Access.antt =====
-- What the processor calls, and that it makes the SOC a machine of the processor.
use zenith_gb.Base.{
  ℕ, ◌+◌, ◌-◌, ◌≡◌, refl, Bool, true, false, not, Option, none, some, ◌==◌, bit_and, ◌>>=◌,
  if_cases, ap, sym, ◌∙◌, arith, if◌then◌else◌,
}
use zenith_gb.Timer.{
  Timer, clock_write_div, clock_write_tac, clock_write_tima, clock_write_tma, reset_div,
}
use zenith_gb.Timer
use zenith_gb.Soc.Context.{ClockContext}
use zenith_gb.Soc.State.{Soc}
use zenith_gb.Soc.Read.{read_mapped}
use zenith_gb.Soc.Write.{write_mapped}
use zenith_gb.Soc.Clock.{clock_parts, clock_with, clock, clock_timer_write}
use zenith_gb.Cpu.Machine.{Machine}

-- Whether a transfer to the object memory is running.
abbrev dma_runs : Soc → Bool
dma_runs s = elim s.parts.active_dma [ none ↦ false | some t ↦ true ]

unfoldable pub clock_read : (exit : Bool) → ℕ → Soc → Option (ℕ × Soc)
clock_read exit address s =
    clock exit s >>= (λ t. read_mapped (dma_runs s) address t.parts >>= (λ byte. some (byte, t)))

-- An access other than to the timer: the clock, then the write.
unfoldable pub write_after_clock : (exit : Bool) → (address byte : ℕ) → Soc → Option Soc
write_after_clock exit address byte s = clock exit s >>= (λ t.
    write_mapped (dma_runs s) address byte t.parts >>= (λ p. some (record t { parts = p })))

unfoldable pub clock_write : (exit : Bool) → (address byte : ℕ) → Soc → Option Soc
clock_write exit address byte s =
    if address == 0xff04
    then clock_timer_write exit clock_write_div byte s
    else if address == 0xff07
    then clock_timer_write exit clock_write_tac byte s
    else if address == 0xff05
    then clock_timer_write exit clock_write_tima byte s
    else if address == 0xff06
    then clock_timer_write exit clock_write_tma byte s
    else write_after_clock exit address byte s

unfoldable pub active_interrupts : Soc → ℕ
active_interrupts s = bit_and s.parts.ie_flags s.parts.if_flags

-- `if_flags & !interrupt` on a byte.
pub clear_interrupt : ℕ → Soc → Soc
clear_interrupt interrupt s = record s {
  parts = record s.parts { if_flags = bit_and s.parts.if_flags (255 - interrupt) };
}

pub set_cpu_halted : Bool → Soc → Soc
set_cpu_halted halted s = record s { parts = record s.parts { cpu_halted = halted } }

unfoldable pub cgb_speed_switch : Soc → Soc
cgb_speed_switch s = if not s.parts.cpu_speed_armed then s else record s {
  parts = record s.parts {
    timer = reset_div s.parts.timer;
    cpu_speed_armed = false;
    cpu_speed = not s.parts.cpu_speed;
  };
}

-- The value of a chain that returns comes out of its last step.
returned :
    {A B : Type 0} (m : Option A) (f : A → Option B) (b : B)
    → (m >>= f) ≡ some b
    → (a : A) × (m ≡ some a) × (f a ≡ some b)
returned none f b e = absurd (ground arith)
returned (some a) f b e = (a, refl, e)

some-value : {A : Type 0} (P : A → ℕ) (a b : A) → some a ≡ some b → P a ≡ P b
some-value P a b e = ap P (let q : a ≡ b = cc in q)

clock_with-cycles :
    (exit : Bool) (cb : Timer → ClockContext → Timer × ClockContext) (s t : Soc)
    → clock_with exit cb s ≡ some t
    → t.cycles ≡ s.cycles + 1
unfolding clock_with
clock_with-cycles exit cb s t e =
    let (p, e1, e2) = returned (clock_parts exit cb s.cycles s.parts) _ t e in
    sym (some-value (λ (x : Soc). x.cycles) _ t e2)

pub clock_read-cycles :
    (exit : Bool) (address : ℕ) (s : Soc) (r : ℕ × Soc)
    → clock_read exit address s ≡ some r
    → r.1.cycles ≡ s.cycles + 1
unfolding clock_read clock
clock_read-cycles exit address s r e =
    let (t, e1, e2) = returned (clock exit s) _ r e in
    let (byte, e3, e4) = returned (read_mapped (dma_runs s) address t.parts) _ r e2 in
    sym (some-value (λ (x : ℕ × Soc). x.1.cycles) _ r e4)
    ∙ clock_with-cycles exit Timer.clock s t e1

pub clock_write-cycles :
    (exit : Bool) (address byte : ℕ) (s t : Soc)
    → clock_write exit address byte s ≡ some t
    → t.cycles ≡ s.cycles + 1
unfolding clock_write write_after_clock clock_timer_write clock
clock_write-cycles exit address byte s t =
    if_cases P (address == 0xff04) (λ _. clock_with-cycles exit _ s t)
      (λ _.
        if_cases P (address == 0xff07) (λ _. clock_with-cycles exit _ s t)
          (λ _.
            if_cases P (address == 0xff05) (λ _. clock_with-cycles exit _ s t)
              (λ _.
                if_cases P (address == 0xff06) (λ _. clock_with-cycles exit _ s t)
                  (λ _ e.
                    let (u, e1, e2) = returned (clock exit s) _ t e in
                    let (p, e3, e4) =
                      returned (write_mapped (dma_runs s) address byte u.parts) _ t e2 in
                    sym (some-value (λ (x : Soc). x.cycles) _ t e4)
                    ∙ clock_with-cycles exit Timer.clock s u e1))))
  where
    P : Option Soc → Type 0
    P m = m ≡ some t → t.cycles ≡ s.cycles + 1

pub clock-cycles : (exit : Bool) (s t : Soc) → clock exit s ≡ some t → t.cycles ≡ s.cycles + 1
unfolding clock
clock-cycles exit s t e = clock_with-cycles exit Timer.clock s t e

pub clear_interrupt-cycles : (bits : ℕ) (s : Soc) → (clear_interrupt bits s).cycles ≡ s.cycles
unfolding clear_interrupt
clear_interrupt-cycles bits s = refl

pub set_cpu_halted-cycles : (halted : Bool) (s : Soc) → (set_cpu_halted halted s).cycles ≡ s.cycles
unfolding set_cpu_halted
set_cpu_halted-cycles halted s = refl

pub cgb_speed_switch-cycles : (s : Soc) → (cgb_speed_switch s).cycles ≡ s.cycles
unfolding cgb_speed_switch
cgb_speed_switch-cycles s =
    if_cases (λ (t : Soc). t.cycles ≡ s.cycles) (not s.parts.cpu_speed_armed) (λ _. refl)
      (λ _. refl)

-- The SOC as the processor's machine.
abbrev pub soc_machine : (exit : Bool) → Machine Soc
soc_machine exit = record {
  cycles = λ s. s.cycles;
  clock = clock exit;
  clock_read = clock_read exit;
  clock_write = clock_write exit;
  active_interrupts = active_interrupts;
  clear_interrupt = clear_interrupt;
  set_cpu_halted = set_cpu_halted;
  cgb_speed_switch = cgb_speed_switch;
  clock_lem = clock-cycles exit;
  clock_read_lem = clock_read-cycles exit;
  clock_write_lem = clock_write-cycles exit;
  clear_interrupt_lem = clear_interrupt-cycles;
  set_cpu_halted_lem = set_cpu_halted-cycles;
  cgb_speed_switch_lem = cgb_speed_switch-cycles;
}
