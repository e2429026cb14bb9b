-- ===== src/Base/Int.antt =====
-- C++ `int` values as integers, and their conversion to unsigned words.
use Prim.Native.Nat.{ℕ, suc, ◌-◌, ◌*◌, ◌/◌, ◌%◌, ◌^◌, ◌<◌}
use mathlib.Core.Path.{◌≡◌}
use mathlib.Core.Logic.{◌↔◌}
use mathlib.Core.Bool.{Bool, true, false}
use native.Mathlib.Omega.{arith}
use roboparty_dexhand.Base.Tests.{ltb, leb, ◌==◌, if◌then◌else◌}

-- `negsuc n` is -(n + 1).
pub data ℤ : Type 0 where
  pos : ℕ → ℤ
  negsuc : ℕ → ℤ

-- `a <= n` and `n < a` for a natural number n.
abbrev pub at_most : ℤ → ℕ → Bool
at_most (pos m) n = leb m n
at_most (negsuc m) n = true

abbrev pub below_zero : ℤ → Bool
below_zero (pos m) = false
below_zero (negsuc m) = true

abbrev pub eq_ℤ : ℤ → ℤ → Bool
eq_ℤ (pos a) (pos b) = a == b
eq_ℤ (pos a) (negsuc b) = false
eq_ℤ (negsuc a) (pos b) = false
eq_ℤ (negsuc a) (negsuc b) = a == b

-- Conversion of an `int` to `unsigned`: modulo 2 ^ 32.
abbrev pub to_u32 : ℤ → ℕ
to_u32 (pos n) = n % 2 ^ 32
to_u32 (negsuc n) = 2 ^ 32 - 1 - n % 2 ^ 32

-- C++ division of an `int` by a positive number, which rounds toward zero.
abbrev pub quot_ℤ : ℤ → ℕ → ℤ
quot_ℤ (pos n) d = pos (n / d)
quot_ℤ (negsuc n) d = if ltb (suc n) d then pos 0 else negsuc (suc n / d - 1)

-- The product of an `int` and a positive number.
abbrev pub times_ℤ : ℤ → ℕ → ℤ
times_ℤ (pos n) k = pos (n * k)
times_ℤ (negsuc n) k = negsuc (suc n * k - 1)

-- The `int16_t` that a 16-bit pattern stands for.
abbrev pub to_i16 : ℕ → ℤ
to_i16 x = if ltb x 32768 then pos x else negsuc (65535 - x)

-- The `int`s of an `int16_t`.
abbrev pub FitsI16 : ℤ → Type 0
FitsI16 (pos n) = n < 32768
FitsI16 (negsuc n) = n < 32768

pub eq_ℤ_iff : (a b : ℤ) → (eq_ℤ a b ≡ true) ↔ (a ≡ b)
eq_ℤ_iff a b = ground arith

pub to_i16-to_u32 : (v : ℤ) → FitsI16 v → to_i16 (to_u32 v % 2 ^ 16) ≡ v
to_i16-to_u32 v h = ground arith
