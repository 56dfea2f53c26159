-- ===== src/Cpu/Bus.antt =====
-- src/soc/soc.rs as the processor sees it: the calls of `SOC` that src/cpu makes, and what they
-- promise of the clock.
--
-- `none` is a panic. Every access takes one machine cycle, the other calls take none. The module
-- Machine fills the record for machines whose calls may panic, of which the SOC is one.
use zenith_gb.Base.{ℕ, ◌+◌, ◌<◌, ◌≡◌, Bool, Option, Returns}

pub record Bus (S : Type 0) : Type 1 where
  pub cycles : S → ℕ
  pub clock : S → Option S
  pub clock_read : ℕ → S → Option (ℕ × S)
  pub clock_write : ℕ → ℕ → S → Option S
  pub active_interrupts : S → ℕ
  pub clear_interrupt : ℕ → S → S
  pub set_cpu_halted : Bool → S → S
  pub cgb_speed_switch : S → S
  pub IsValid : S → Type 0
  pub clock_lem :
      (s : S) → IsValid s → Returns (λ t. IsValid t × (cycles t ≡ cycles s + 1)) (clock s)
  pub clock_read_lem :
      (address : ℕ) (s : S)
      → address < 65536
      → IsValid s
      → Returns
          (λ (p : ℕ × S). (p.0 < 256) × IsValid p.1 × (cycles p.1 ≡ cycles s + 1))
          (clock_read address s)
  pub clock_write_lem :
      (address byte : ℕ) (s : S)
      → address < 65536
      → byte < 256
      → IsValid s
      → Returns (λ t. IsValid t × (cycles t ≡ cycles s + 1)) (clock_write address byte s)
  pub clear_interrupt_lem :
      (bits : ℕ) (s : S)
      → IsValid s
      → IsValid (clear_interrupt bits s) × (cycles (clear_interrupt bits s) ≡ cycles s)
  pub set_cpu_halted_lem :
      (halted : Bool) (s : S)
      → IsValid s
      → IsValid (set_cpu_halted halted s) × (cycles (set_cpu_halted halted s) ≡ cycles s)
  pub cgb_speed_switch_lem :
      (s : S) → IsValid s → IsValid (cgb_speed_switch s) × (cycles (cgb_speed_switch s) ≡ cycles s)
