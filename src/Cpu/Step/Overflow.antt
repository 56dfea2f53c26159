-- ===== src/Cpu/Step/Overflow.antt =====
-- An interrupt after the program counter has wrapped around.
use zenith_gb.Base.{◌≡◌, refl, Option, none, some, ◌>>=◌}
use zenith_gb.Cpu.Bus.{Bus}
use zenith_gb.Cpu.Registers.{Cpu}
use zenith_gb.Cpu.Step.{handle_interrupt}

>>=-none {ℓ κ} :
    {A : Type ℓ} {B : Type κ} (m : Option A) (f : A → Option B)
    → ((a : A) → f a ≡ none)
    → (m >>= f) ≡ none
>>=-none none f h = refl
>>=-none (some a) f h = h a

-- With PC 0, which is the one after an opcode fetched at 0xFFFF, serving an interrupt ends in a
-- panic on every bus: `pc - 1` overflows.
pub handle_interrupt-panics :
    {S : Type 0} (bus : Bus S) (cpu : Cpu) (soc : S)
    → cpu.reg_pc ≡ 0
    → handle_interrupt bus cpu soc ≡ none
unfolding handle_interrupt
handle_interrupt-panics bus cpu soc e =
    >>=-none (bus.clock soc) _ (λ s1. >>=-none (bus.clock s1) _ (λ s2. simp e refl))
