-- ===== src/Base/Word.antt =====
-- Unsigned machine words: truncation, shifts, wrapping and overflow-checked arithmetic.
use Prim.Native.Nat.{ℕ, ◌+◌, ◌-◌, ◌*◌, ◌/◌, ◌%◌, ◌^◌}
use mathlib.Core.Option.{Option, none, some}
use zenith_gb.Base.Tests.{ltb, if◌then◌else◌}

-- `x as u8` and `x as u16`
abbrev pub u8 : ℕ → ℕ
u8 x = x % 256

abbrev pub u16 : ℕ → ℕ
u16 x = x % 65536

infixl 75 ◌<<<◌ ◌>>>◌
abbrev pub ◌<<<◌ : ℕ → ℕ → ℕ
x <<< k = x * 2 ^ k

abbrev pub ◌>>>◌ : ℕ → ℕ → ℕ
x >>> k = x / 2 ^ k

-- `a - b` on an unsigned type, with overflow checks: `none` is the panic.
abbrev pub checked_sub : ℕ → ℕ → Option ℕ
checked_sub a b = if ltb a b then none else some (a - b)

-- `a + b` on an unsigned type of `size` values, with overflow checks.
abbrev pub checked_add : ℕ → ℕ → ℕ → Option ℕ
checked_add size a b = if ltb (a + b) size then some (a + b) else none

-- `a.wrapping_sub(b)` on an unsigned type of `size` values.
abbrev pub wrapping_sub : ℕ → ℕ → ℕ → ℕ
wrapping_sub size a b = (a + size - b) % size
