-- ===== src/Base/Bits.antt =====
-- Single bits of `bit_and` and `bit_or`, at variables.
use Prim.Native.Nat.{
  ℕ, zero, suc, ◌+◌, ◌*◌, ◌/◌, ◌%◌, ◌^◌, ◌≤◌, min, max, bit_and, bit_or, digits, bit_and-bitwise,
  bit_or-bitwise,
}
use mathlib.Core.Path.{◌≡◌, refl, ap}
use native.Mathlib.Omega.{arith}
use native.Mathlib.Nat.{pow-suc}
use toda.Base.Tests.{◌==◌, if◌then◌else◌}

-- The digit of `x` at place `k`.
unfoldable pub bit : ℕ → ℕ → ℕ
bit zero x = x % 2
bit (suc k) x = bit k (x / 2)

-- The fuel of the library's recursion on digits does not matter, once it covers the number.
enough_digits :
    (rest : ℕ → ℕ) (op : ℕ → ℕ → ℕ) (a n m b : ℕ)
    → a ≤ n
    → a ≤ m
    → digits rest op n a b ≡ digits rest op m a b
enough_digits rest op zero zero zero b p q = refl
enough_digits rest op zero zero (suc m) b p q = refl
enough_digits rest op zero (suc n) zero b p q = refl
enough_digits rest op zero (suc n) (suc m) b p q = refl
enough_digits rest op (suc a) zero m b p q = elim p [ ]
enough_digits rest op (suc a) (suc n) zero b p q = elim q [ ]
enough_digits rest op (suc a) (suc n) (suc m) b p q =
    rw (enough_digits rest op (suc a / 2) n m (b / 2) (omega arith) (omega arith))

or_halves : (a b : ℕ) → bit_or a b ≡ bit_or (a / 2) (b / 2) * 2 + max (a % 2) (b % 2)
or_halves zero b = simp bit_or-bitwise (omega arith)
or_halves (suc a) b = simp bit_or-bitwise (
    omega (
      arith,
      enough_digits (λ b. b) max (suc a / 2) a (suc a / 2) (b / 2) (omega arith) (omega arith),
    ))

and_halves : (a b : ℕ) → bit_and a b ≡ bit_and (a / 2) (b / 2) * 2 + min (a % 2) (b % 2)
and_halves zero b = simp bit_and-bitwise (omega arith)
and_halves (suc a) b = simp bit_and-bitwise (
    omega (
      arith,
      enough_digits (λ b. zero) min (suc a / 2) a (suc a / 2) (b / 2) (omega arith) (omega arith),
    ))

pub bit-le_one : (k x : ℕ) → bit k x ≤ 1
unfolding bit
bit-le_one zero x = omega arith
bit-le_one (suc k) x = bit-le_one k (x / 2)

or_half : (a b : ℕ) → bit_or a b / 2 ≡ bit_or (a / 2) (b / 2)
or_half a b = omega (arith, or_halves a b)

pub bit-bit_or : (k a b : ℕ) → bit k (bit_or a b) ≡ max (bit k a) (bit k b)
unfolding bit
bit-bit_or zero a b = omega (arith, or_halves a b)
bit-bit_or (suc k) a b = rw (or_half a b) (bit-bit_or k (a / 2) (b / 2))

and_zero_below : (n a : ℕ) → a ≤ n → bit_and a 0 ≡ 0
and_zero_below n zero h = refl
and_zero_below zero (suc a) h = elim h [ ]
and_zero_below (suc n) (suc a) h =
    omega (arith, and_halves (suc a) 0, and_zero_below n (suc a / 2) (omega arith))

pow_half : (k : ℕ) → 2 ^ suc k / 2 ≡ 2 ^ k
pow_half k = omega (arith, pow-suc 2 k)

pow_even : (k : ℕ) → 2 ^ suc k % 2 ≡ 0
pow_even k = omega (arith, pow-suc 2 k)

-- Masking with a single flag leaves that flag's place value, or nothing.
pub bit_and-flag : (k a : ℕ) → bit_and a (2 ^ k) ≡ bit k a * 2 ^ k
unfolding bit
bit_and-flag zero a = omega (arith, and_halves a 1, and_zero_below (a / 2) (a / 2) (omega arith))
bit_and-flag (suc k) a =
    rw (and_halves a (2 ^ suc k), pow_half k, pow_even k, bit_and-flag k (a / 2))
      (omega (arith, ap (λ (t : ℕ). bit k (a / 2) * t) (pow-suc 2 k)))

pub bit-zero : (k : ℕ) → bit k 0 ≡ 0
unfolding bit
bit-zero zero = refl
bit-zero (suc k) = bit-zero k

pub bit-flag : (k j : ℕ) → bit k (2 ^ j) ≡ (if k == j then 1 else 0)
unfolding bit
bit-flag zero zero = refl
bit-flag zero (suc j) = ground (arith, pow_even j)
bit-flag (suc k) zero = ground (arith, bit-zero k)
bit-flag (suc k) (suc j) = rw (pow_half j) (ground (arith, bit-flag k j))

pub pow-ne-zero : (k : ℕ) → 1 ≤ 2 ^ k
pow-ne-zero zero = omega arith
pow-ne-zero (suc k) = omega (arith, pow-suc 2 k, pow-ne-zero k)
