-- ===== src/Cpu/Machine.antt =====
-- A machine whose accesses may panic, as a bus of the processor.
--
-- `none` is a panic inside `SOC`. The bus goes on from it in a state of its own, `panicked`, in which
-- accesses do nothing but count; so what the processor does after it is of no account, and a step
-- of the source panics inside `SOC` when the step here ends in `panicked`.
use zenith_gb.Base.{
  ℕ, ◌+◌, ◌<◌, ◌≡◌, refl, Bool, Option, none, some, ltb, arith, Bool-cases, inl, inr, if◌then◌else◌,
}
use zenith_gb.Cpu.Bus.{Bus}

-- The calls of `SOC` that src/cpu makes. An access that returns takes one machine cycle, the other
-- calls take none.
pub record Machine (S : Type 0) : Type 0 where
  pub cycles : S → ℕ
  pub clock : S → Option S
  pub clock_read : ℕ → S → Option (ℕ × S)
  pub clock_write : ℕ → ℕ → S → Option S
  pub active_interrupts : S → ℕ
  pub clear_interrupt : ℕ → S → S
  pub set_cpu_halted : Bool → S → S
  pub cgb_speed_switch : S → S
  pub clock_lem : (s t : S) → clock s ≡ some t → cycles t ≡ cycles s + 1
  pub clock_read_lem :
      (address : ℕ) (s : S) (r : ℕ × S) → clock_read address s ≡ some r → cycles r.1 ≡ cycles s + 1
  pub clock_write_lem :
      (address byte : ℕ) (s t : S) → clock_write address byte s ≡ some t → cycles t ≡ cycles s + 1
  pub clear_interrupt_lem : (bits : ℕ) (s : S) → cycles (clear_interrupt bits s) ≡ cycles s
  pub set_cpu_halted_lem : (halted : Bool) (s : S) → cycles (set_cpu_halted halted s) ≡ cycles s
  pub cgb_speed_switch_lem : (s : S) → cycles (cgb_speed_switch s) ≡ cycles s

pub data Guarded (S : Type 0) : Type 0 where
  running : S → Guarded S
  panicked : ℕ → Guarded S

module _ {S : Type 0} (m : Machine S) where
  -- The state after an access, which ends at `time`.
  abbrev pub after : ℕ → Option S → Guarded S
  after time none = panicked time
  after time (some s) = running s

  -- A read returns a `u8`.
  abbrev pub after_read : ℕ → Option (ℕ × S) → ℕ × Guarded S
  after_read time none = (0, panicked time)
  after_read time (some (byte, s)) = if ltb byte 256 then (byte, running s) else (0, panicked time)

  abbrev pub time_of : Guarded S → ℕ
  time_of (running s) = m.cycles s
  time_of (panicked time) = time

  abbrev pub guarded_clock : Guarded S → Guarded S
  guarded_clock (running s) = after (m.cycles s + 1) (m.clock s)
  guarded_clock (panicked time) = panicked (time + 1)

  abbrev pub guarded_read : ℕ → Guarded S → ℕ × Guarded S
  guarded_read address (running s) = after_read (m.cycles s + 1) (m.clock_read address s)
  guarded_read address (panicked time) = (0, panicked (time + 1))

  abbrev pub guarded_write : ℕ → ℕ → Guarded S → Guarded S
  guarded_write address byte (running s) = after (m.cycles s + 1) (m.clock_write address byte s)
  guarded_write address byte (panicked time) = panicked (time + 1)

  abbrev pub guarded_call : (S → S) → Guarded S → Guarded S
  guarded_call f (running s) = running (f s)
  guarded_call f (panicked time) = panicked time

  abbrev pub guarded_interrupts : Guarded S → ℕ
  guarded_interrupts (running s) = m.active_interrupts s
  guarded_interrupts (panicked time) = 0

  time_of-after :
      (time : ℕ) (r : Option S)
      → ((s : S) → r ≡ some s → m.cycles s ≡ time)
      → time_of (after time r) ≡ time
  time_of-after time none h = refl
  time_of-after time (some s) h = h s refl

  after_read_lem :
      (time : ℕ) (r : Option (ℕ × S))
      → ((p : ℕ × S) → r ≡ some p → m.cycles p.1 ≡ time)
      → ((after_read time r).0 < 256) × (time_of (after_read time r).1 ≡ time)
  after_read_lem time none h = (omega arith, refl)
  after_read_lem time (some (byte, s)) h = elim (Bool-cases (ltb byte 256)) [
    | inl e ↦ simp e (ground arith, h (byte, s) refl)
    | inr e ↦ simp e (omega arith, refl)
  ]

  pub clock-time : (s : Guarded S) → time_of (guarded_clock s) ≡ time_of s + 1
  clock-time (running s) = time_of-after _ _ (m.clock_lem s)
  clock-time (panicked time) = refl

  pub read-time :
      (address : ℕ) (s : Guarded S)
      → ((guarded_read address s).0 < 256) × (time_of (guarded_read address s).1 ≡ time_of s + 1)
  read-time address (running s) = after_read_lem _ _ (m.clock_read_lem address s)
  read-time address (panicked time) = (omega arith, refl)

  pub write-time :
      (address byte : ℕ) (s : Guarded S) → time_of (guarded_write address byte s) ≡ time_of s + 1
  write-time address byte (running s) = time_of-after _ _ (m.clock_write_lem address byte s)
  write-time address byte (panicked time) = refl

  pub call-time :
      (f : S → S) (s : Guarded S)
      → ((t : S) → m.cycles (f t) ≡ m.cycles t)
      → time_of (guarded_call f s) ≡ time_of s
  call-time f (running s) h = h s
  call-time f (panicked time) h = refl

  abbrev pub guard : Bus (Guarded S)
  guard = record {
    cycles = time_of;
    clock = λ s. some (guarded_clock s);
    clock_read = λ address s. some (guarded_read address s);
    clock_write = λ address byte s. some (guarded_write address byte s);
    active_interrupts = guarded_interrupts;
    clear_interrupt = λ bits. guarded_call (m.clear_interrupt bits);
    set_cpu_halted = λ halted. guarded_call (m.set_cpu_halted halted);
    cgb_speed_switch = guarded_call m.cgb_speed_switch;
    IsValid = λ s. Unit;
    clock_lem = λ s v. (_, refl, (tt, clock-time s));
    clock_read_lem =
        λ address s lt v. let (byte, time) = read-time address s in (_, refl, (byte, tt, time));
    clock_write_lem = λ address byte s lt blt v. (_, refl, (tt, write-time address byte s));
    clear_interrupt_lem =
        λ bits s v. (tt, call-time (m.clear_interrupt bits) s (m.clear_interrupt_lem bits));
    set_cpu_halted_lem =
        λ halted s v. (tt, call-time (m.set_cpu_halted halted) s (m.set_cpu_halted_lem halted));
    cgb_speed_switch_lem = λ s v. (tt, call-time m.cgb_speed_switch s m.cgb_speed_switch_lem);
  }
