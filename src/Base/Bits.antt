-- ===== src/Base/Bits.antt =====
-- `&`, `|` and `^` at variables: one equation for the lowest digit, and from it masks, single bits
-- and joined fields as arithmetic.
mod Digits
use Digits.{bit_and_digit, bit_or_digit, bit_xor_digit, differ-lt}
use Prim.Native.Nat.{
  ℕ, zero, suc, ◌+◌, ◌-◌, ◌*◌, ◌/◌, ◌%◌, ◌^◌, ◌≤◌, ◌<◌, max, min, bit_and, bit_or, bit_xor,
}
use Prim.Native.Nat.{bit_and-bitwise, bit_or-bitwise}
use mathlib.Core.Path.{◌≡◌, refl, ap}
use native.Mathlib.Nat.{pow-suc, one-le-pow, mul_comm, div-div-eq-div-mul, div-add-mod'}
use native.Mathlib.Omega.{arith}
pub use Digits.*

bit_and-zero_upto : (n a : ℕ) → a ≤ n → bit_and a 0 ≡ 0
bit_and-zero_upto n zero h = refl
bit_and-zero_upto zero (suc a) h = absurd (omega arith)
bit_and-zero_upto (suc n) (suc a) h =
    omega (arith, bit_and_digit (suc a) 0, bit_and-zero_upto n (suc a / 2) (omega arith))

pub bit_and-zero : (a : ℕ) → bit_and a 0 ≡ 0
bit_and-zero a = bit_and-zero_upto a a (omega arith)

bit_or-zero_upto : (n a : ℕ) → a ≤ n → bit_or a 0 ≡ a
bit_or-zero_upto n zero h = refl
bit_or-zero_upto zero (suc a) h = absurd (omega arith)
bit_or-zero_upto (suc n) (suc a) h =
    omega (arith, bit_or_digit (suc a) 0, bit_or-zero_upto n (suc a / 2) (omega arith))

pub bit_or-zero : (a : ℕ) → bit_or a 0 ≡ a
bit_or-zero a = bit_or-zero_upto a a (omega arith)

-- `2 ^ suc k` is twice `2 ^ k`, under a division and under a factor.
div-two-pow-suc : (k a : ℕ) → a / 2 ^ suc k ≡ a / 2 / 2 ^ k
div-two-pow-suc k a = rw (pow-suc, mul_comm (2 ^ k) 2, div-div-eq-div-mul)

mul-two-pow-suc : (m k : ℕ) → m * 2 ^ suc k ≡ m * 2 ^ k * 2
mul-two-pow-suc m k = omega (arith, ap (λ (t : ℕ). m * t) (pow-suc 2 k))

mod-two-pow-suc : (k a : ℕ) → a % 2 ^ suc k ≡ a / 2 % 2 ^ k * 2 + a % 2
mod-two-pow-suc k a = ground (
  arith,
  div-add-mod' a (2 ^ suc k),
  div-add-mod' (a / 2) (2 ^ k),
  div-two-pow-suc k a,
  mul-two-pow-suc (a / 2 / 2 ^ k) k,
)

-- `a & (m << k)` keeps of `a` what `m` selects from bit `k` on.
pub bit_and-shifted : (k a m : ℕ) → bit_and a (m * 2 ^ k) ≡ bit_and (a / 2 ^ k) m * 2 ^ k
bit_and-shifted zero a m = ground arith
bit_and-shifted (suc k) a m = ground (
  arith,
  bit_and_digit a (m * 2 ^ suc k),
  mul-two-pow-suc m k,
  mul-two-pow-suc (bit_and (a / 2 ^ suc k) m) k,
  div-two-pow-suc k a,
  bit_and-shifted k (a / 2) m,
)

-- A mask of `k` ones is the remainder by `2 ^ k`.
pub bit_and-mask : (k a : ℕ) → bit_and a (2 ^ k - 1) ≡ a % 2 ^ k
bit_and-mask zero a = omega (arith, bit_and-zero a)
bit_and-mask (suc k) a = ground (
  arith,
  bit_and_digit a (2 ^ suc k - 1),
  pow-suc 2 k,
  one-le-pow k 2,
  mod-two-pow-suc k a,
  bit_and-mask k (a / 2),
)

-- `(q << k) | r` is a sum where `r` fits in `k` bits.
pub bit_or-fields : (k q r : ℕ) → r < 2 ^ k → bit_or (q * 2 ^ k) r ≡ q * 2 ^ k + r
bit_or-fields zero q r h = ground (arith, bit_or-zero q)
bit_or-fields (suc k) q r h = ground (
  arith,
  bit_or_digit (q * 2 ^ suc k) r,
  mul-two-pow-suc q k,
  pow-suc 2 k,
  bit_or-fields k q (r / 2),
)

-- A single bit, and what is left of a bit that is shifted out.
pub bit_and-bit : (k a : ℕ) → bit_and a (2 ^ k) ≡ a / 2 ^ k % 2 * 2 ^ k
bit_and-bit k a = ground (arith, bit_and-shifted k a 1, bit_and-mask 1 (a / 2 ^ k))

pub bit_and-zero_left : (b : ℕ) → bit_and 0 b ≡ 0
bit_and-zero_left b = bit_and-bitwise 0 b

pub bit_or-zero_left : (b : ℕ) → bit_or 0 b ≡ b
bit_or-zero_left b = bit_or-bitwise 0 b

bit_or-comm_upto : (n a b : ℕ) → a ≤ n → bit_or a b ≡ bit_or b a
bit_or-comm_upto n zero b h = ground (arith, bit_or-zero b, bit_or-zero_left b)
bit_or-comm_upto zero (suc a) b h = absurd (omega arith)
bit_or-comm_upto (suc n) (suc a) b h = omega (
  arith,
  bit_or_digit (suc a) b,
  bit_or_digit b (suc a),
  bit_or-comm_upto n (suc a / 2) (b / 2) (omega arith),
)

pub bit_or_comm : (a b : ℕ) → bit_or a b ≡ bit_or b a
bit_or_comm a b = bit_or-comm_upto a a b (omega arith)

-- The bounds that the masks of a word give, and that joined words keep.
bit_and-le_upto : (n a b : ℕ) → a ≤ n → (bit_and a b ≤ a) × (bit_and a b ≤ b)
bit_and-le_upto n zero b h = omega (arith, bit_and-zero_left b)
bit_and-le_upto zero (suc a) b h = absurd (omega arith)
bit_and-le_upto (suc n) (suc a) b h =
    omega (arith, bit_and_digit (suc a) b, bit_and-le_upto n (suc a / 2) (b / 2) (omega arith))

pub bit_and-le : (a b : ℕ) → (bit_and a b ≤ a) × (bit_and a b ≤ b)
bit_and-le a b = bit_and-le_upto a a b (omega arith)

pub bit_or-lt_two_pow : (k a b : ℕ) → a < 2 ^ k → b < 2 ^ k → bit_or a b < 2 ^ k
bit_or-lt_two_pow zero a b ha hb = ground (arith, bit_or-zero 0)
bit_or-lt_two_pow (suc k) a b ha hb =
    ground (arith, bit_or_digit a b, pow-suc 2 k, bit_or-lt_two_pow k (a / 2) (b / 2))

pub bit_xor-lt_two_pow : (k a b : ℕ) → a < 2 ^ k → b < 2 ^ k → bit_xor a b < 2 ^ k
bit_xor-lt_two_pow zero a b ha hb =
    let (p, q) : (a ≡ 0) × (b ≡ 0) = (omega arith, omega arith) in simp (p, q) (omega arith)
bit_xor-lt_two_pow (suc k) a b ha hb = omega (
  arith,
  bit_xor_digit a b,
  differ-lt (a % 2) (b % 2) (omega arith) (omega arith),
  pow-suc 2 k,
  bit_xor-lt_two_pow k (a / 2) (b / 2) (omega (arith, pow-suc 2 k)) (omega (arith, pow-suc 2 k)),
)
