-- ===== src/Base/Int.antt =====
-- Signed integers over the native numbers, for C's `int`, `long` and `time_t`.
use Prim.Native.Nat.{ℕ, suc, ◌+◌, ◌-◌, ◌%◌, ◌^◌, ◌≤◌}
use mathlib.Core.Path.{◌≡◌}
use native.Mathlib.Omega.{arith}
use mathlib.Core.Bool.{Bool, true, false}
use sntools.Base.Tests.{ltb, leb, if◌then◌else◌}

-- `negsuc n` is -(n + 1).
pub data ℤ : Type 0 where
  pos : ℕ → ℤ
  negsuc : ℕ → ℤ

abbrev pub pos_part : ℤ → ℕ
pos_part (pos n) = n
pos_part (negsuc n) = 0

abbrev pub neg_part : ℤ → ℕ
neg_part (pos n) = 0
neg_part (negsuc n) = suc n

-- a - b, as an integer.
abbrev pub sub_ℕ : ℕ → ℕ → ℤ
sub_ℕ a b = if leb b a then pos (a - b) else negsuc (b - a - 1)

pub sub_ℕ-add : (a b n : ℕ) → a ≡ b + n → sub_ℕ a b ≡ pos n
sub_ℕ-add a b n e = ground (arith, e)

infixl 65 ◌-ℤ◌
unfoldable pub ◌-ℤ◌ : ℤ → ℤ → ℤ
a -ℤ b = sub_ℕ (pos_part a + neg_part b) (neg_part a + pos_part b)

infix 50 ◌≤ℤ◌
abbrev pub ◌≤ℤ◌ : ℤ → ℤ → Type 0
a ≤ℤ b = pos_part a + neg_part b ≤ pos_part b + neg_part a

abbrev pub ltb_ℤ : ℤ → ℤ → Bool
ltb_ℤ a b = ltb (pos_part a + neg_part b) (pos_part b + neg_part a)

abbrev pub two_64 : ℕ
two_64 = 2 ^ 64

-- The conversion of an `int` to `unsigned long`.
abbrev pub to_ulong : ℤ → ℕ
to_ulong (pos n) = n % two_64
to_ulong (negsuc n) = two_64 - 1 - n % two_64

-- The room that a signed limit leaves, in natural numbers.
pub none_left : (num : ℕ) (m : ℤ) → ltb_ℤ (pos num) m ≡ false → pos_part m - num ≡ 0
none_left num (pos n) h = ground arith
none_left num (negsuc n) h = omega arith

pub one_left :
    (num : ℕ) (m : ℤ) → ltb_ℤ (pos num) m ≡ true → pos_part m - num ≡ suc (pos_part m - suc num)
one_left num (pos n) h = ground arith
one_left num (negsuc n) h = ground arith

pub sub_zero : (n : ℕ) → n - 0 ≡ n
sub_zero n = omega arith
