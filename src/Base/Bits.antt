-- ===== src/Base/Bits.antt =====
-- `|` of fields that do not overlap and `&` with a mask of ones, as arithmetic.
use Prim.Native.Nat.{
  ℕ, zero, suc, ◌+◌, ◌-◌, ◌*◌, ◌/◌, ◌%◌, ◌^◌, ◌≤◌, ◌<◌, min, max, bit_and, bit_or, digits,
  bit_and-bitwise, bit_or-bitwise,
}
use mathlib.Core.Path.{◌≡◌, refl, ap}
use native.Mathlib.Omega.{arith}
use native.Mathlib.Nat.{pow-suc, one-le-pow}

-- The digit recursion does not depend on its fuel, once that is enough.
enough_digits :
    (z : ℕ → ℕ) (f : ℕ → ℕ → ℕ) (n m a b : ℕ) → a ≤ n → a ≤ m → digits z f n a b ≡ digits z f m a b
enough_digits z f zero zero a b p q = refl
enough_digits z f zero (suc m) zero b p q = refl
enough_digits z f zero (suc m) (suc a) b p q = absurd (omega arith)
enough_digits z f (suc n) zero zero b p q = refl
enough_digits z f (suc n) zero (suc a) b p q = absurd (omega arith)
enough_digits z f (suc n) (suc m) zero b p q = refl
enough_digits z f (suc n) (suc m) (suc a) b p q =
    rw (enough_digits z f n m (suc a / 2) (b / 2) (omega arith) (omega arith))

or_digit : (a b : ℕ) → bit_or a b ≡ bit_or (a / 2) (b / 2) * 2 + max (a % 2) (b % 2)
or_digit zero b = omega (arith, bit_or-bitwise 0 b, bit_or-bitwise 0 (b / 2))
or_digit (suc a) b = omega (
  arith,
  bit_or-bitwise (suc a) b,
  bit_or-bitwise (suc a / 2) (b / 2),
  enough_digits (λ y. y) max a (suc a / 2) (suc a / 2) (b / 2) (omega arith) (omega arith),
)

and_digit : (a b : ℕ) → bit_and a b ≡ bit_and (a / 2) (b / 2) * 2 + min (a % 2) (b % 2)
and_digit zero b = omega (arith, bit_and-bitwise 0 b, bit_and-bitwise 0 (b / 2))
and_digit (suc a) b = omega (
  arith,
  bit_and-bitwise (suc a) b,
  bit_and-bitwise (suc a / 2) (b / 2),
  enough_digits (λ y. 0) min a (suc a / 2) (suc a / 2) (b / 2) (omega arith) (omega arith),
)

pub zero-bit_or : (b : ℕ) → bit_or 0 b ≡ b
zero-bit_or b = bit_or-bitwise 0 b

zero-bit_and : (b : ℕ) → bit_and 0 b ≡ 0
zero-bit_and b = bit_and-bitwise 0 b

double-pow : (q k : ℕ) → q * 2 ^ suc k ≡ 2 * (q * 2 ^ k)
double-pow q k = omega (arith, ap (λ (t : ℕ). q * t) (pow-suc 2 k))

-- A low field below 2 ^ k joined to a field shifted up by k.
pub or-shifted : (k low high : ℕ) → low < 2 ^ k → bit_or low (high * 2 ^ k) ≡ low + high * 2 ^ k
or-shifted zero low high fits =
    let e : low ≡ 0 = omega arith in rw e (omega (arith, zero-bit_or (high * 1)))
or-shifted (suc k) low high fits = ground (
  arith,
  or_digit low (high * 2 ^ suc k),
  double-pow high k,
  pow-suc 2 k,
  or-shifted k (low / 2) high (omega (arith, pow-suc 2 k)),
)

and_zero : (n a : ℕ) → a ≤ n → bit_and a 0 ≡ 0
and_zero n zero h = refl
and_zero zero (suc a) h = absurd (omega arith)
and_zero (suc n) (suc a) h =
    omega (arith, and_digit (suc a) 0, and_zero n (suc a / 2) (omega arith))

-- The low bits of a number in two fields.
and-fields : (k q r : ℕ) → r < 2 ^ k → bit_and (q * 2 ^ k + r) (2 ^ k - 1) ≡ r
and-fields zero q r fits = omega (arith, and_zero (q * 1 + r) (q * 1 + r) (omega arith))
and-fields (suc k) q r fits = ground (
  arith,
  and_digit (q * 2 ^ suc k + r) (2 ^ suc k - 1),
  double-pow q k,
  pow-suc 2 k,
  one-le-pow k 2,
  and-fields k q (r / 2) (omega (arith, pow-suc 2 k)),
)

pub and-mask : (k a : ℕ) → bit_and a (2 ^ k - 1) ≡ a % 2 ^ k
and-mask k a = ground (arith, one-le-pow k 2, and-fields k (a / 2 ^ k) (a % 2 ^ k))
