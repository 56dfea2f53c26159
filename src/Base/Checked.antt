-- ===== src/Base/Checked.antt =====
-- Code that may panic, as values of `Option`: `none` is the panic.
use mathlib.Core.Option.{Option, none, some}
use mathlib.Core.Path.{◌≡◌, refl, sym}
use mathlib.Core.Bool.{Bool, true}
use zenith_gb.Base.Tests.{if◌then◌else◌}

infixl 5 ◌>>=◌
abbrev pub ◌>>=◌ {ℓ κ} : {A : Type ℓ} {B : Type κ} → Option A → (A → Option B) → Option B
none >>= f = none
some a >>= f = f a

-- The code runs through, and its result satisfies `P`.
abbrev pub Returns {ℓ κ} : {A : Type ℓ} → (A → Type κ) → Option A → Type (ℓ ⊔ κ)
Returns {A} P m = (a : A) × (m ≡ some a) × P a

-- `debug_assert!`
abbrev pub debug_assert : Bool → Option Bool
debug_assert b = if b then some true else none

-- The rules by which code that runs through is followed step by step.
pub >>=-Returns {ℓ ℓ' κ κ'} :
    {A : Type ℓ} {B : Type ℓ'} {P : A → Type κ} {Q : B → Type κ'} {m : Option A} {f : A → Option B}
    → Returns P m
    → ((a : A) → P a → Returns Q (f a))
    → Returns Q (m >>= f)
>>=-Returns (a, e, p) next = simp e (next a p)

pub debug_assert-Returns {ℓ κ} :
    {B : Type ℓ} {Q : B → Type κ} {b : Bool} {m : Option B}
    → b ≡ true
    → Returns Q m
    → Returns Q (debug_assert b >>= λ _. m)
debug_assert-Returns e r = simp e r

-- Weakening what is known of the result.
pub Returns-map {ℓ κ κ'} :
    {A : Type ℓ} {P : A → Type κ} {Q : A → Type κ'} {m : Option A}
    → ((a : A) → P a → Q a)
    → Returns P m
    → Returns Q m
Returns-map f (a, e, p) = (a, e, f a p)

pub Returns-some {ℓ κ} : {A : Type ℓ} {P : A → Type κ} {a : A} → P a → Returns P (some a)
Returns-some {a} p = (a, refl, p)

-- The result is the only one.
pub Returns-of {ℓ κ} :
    {A : Type ℓ} (P : A → Type κ) {m : Option A} {a : A} → m ≡ some a → Returns P m → P a
Returns-of P {a} f (b, e, p) = let q : b ≡ a = cc in rw (sym q) p

pub Returns-both {ℓ κ κ'} :
    {A : Type ℓ} {P : A → Type κ} {Q : A → Type κ'} {m : Option A}
    → Returns P m
    → Returns Q m
    → Returns (λ a. P a × Q a) m
Returns-both {Q} (a, e, p) r = (a, e, (p, Returns-of Q e r))
