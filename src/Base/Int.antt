-- ===== src/Base/Int.antt =====
-- Signed integers over the native numbers, and the 32-bit wrap-around of a release build.
use Prim.Native.Nat.{ℕ, suc, ◌+◌, ◌-◌, ◌%◌, ◌≤◌, ◌<◌}
use mathlib.Core.Path.{◌≡◌}
use mathlib.Core.Bool.{Bool}
use native.Mathlib.Omega.{arith}
use toda.Base.Tests.{ltb, leb, if◌then◌else◌}

-- `negsuc n` is -(n + 1).
pub data ℤ : Type 0 where
  pos : ℕ → ℤ
  negsuc : ℕ → ℤ

abbrev pub pos_part : ℤ → ℕ
pos_part (pos n) = n
pos_part (negsuc n) = 0

abbrev pub neg_part : ℤ → ℕ
neg_part (pos n) = 0
neg_part (negsuc n) = suc n

abbrev pub sub_ℕ : ℕ → ℕ → ℤ
sub_ℕ a b = if leb b a then pos (a - b) else negsuc (b - a - 1)

infixl 65 ◌+ℤ◌ ◌-ℤ◌
infix 50 ◌≤ℤ◌
unfoldable pub ◌+ℤ◌ : ℤ → ℤ → ℤ
a +ℤ b = sub_ℕ (pos_part a + pos_part b) (neg_part a + neg_part b)

unfoldable pub ◌-ℤ◌ : ℤ → ℤ → ℤ
a -ℤ b = sub_ℕ (pos_part a + neg_part b) (neg_part a + pos_part b)

abbrev pub ◌≤ℤ◌ : ℤ → ℤ → Type 0
a ≤ℤ b = pos_part a + neg_part b ≤ pos_part b + neg_part a

abbrev pub ltb_ℤ : ℤ → ℤ → Bool
ltb_ℤ a b = ltb (pos_part a + neg_part b) (pos_part b + neg_part a)

abbrev pub two31 : ℕ
two31 = 2_147_483_648

abbrev pub two32 : ℕ
two32 = 4_294_967_296

-- The bit pattern of an integer in 32 bits, and the integer that a pattern stands for.
abbrev pub to_u32 : ℤ → ℕ
to_u32 (pos n) = n % two32
to_u32 (negsuc n) = two32 - 1 - n % two32

abbrev pub of_u32 : ℕ → ℤ
of_u32 r = if ltb r two31 then pos r else negsuc (two32 - 1 - r)

unfoldable pub wrap_i32 : ℤ → ℤ
wrap_i32 z = of_u32 (to_u32 z)

-- Inside the range of an i32 nothing wraps.
pub wrap_i32-pos : (n : ℕ) → n < two31 → wrap_i32 (pos n) ≡ pos n
unfolding wrap_i32
wrap_i32-pos n h = ground arith

pub wrap_i32-negsuc : (n : ℕ) → n < two31 → wrap_i32 (negsuc n) ≡ negsuc n
unfolding wrap_i32
wrap_i32-negsuc n h = ground arith
