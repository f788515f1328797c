-- ===== src/Prelude/Int.antt =====
-- C's `int`: signed integers over the native numbers, their tests, and the wrap to 32 bits.
use Prim.Native.Nat.{ℕ, ◌+◌, ◌-◌, ◌%◌, ◌^◌, bit_and, bit_or, bit_xor}
use mathlib.Core.Path.{◌≡◌, refl}
use mathlib.Core.Bool.{Bool, true, false, ◌||◌}
use native.Mathlib.Omega.{arith}
use natmap.Prelude.Tests.{ltb, ◌==◌, if◌then◌else◌}

-- `negsuc n` is -(n + 1).
pub data ℤ : Type 0 where
  pos : ℕ → ℤ
  negsuc : ℕ → ℤ

abbrev pub minus_one : ℤ
minus_one = negsuc 0

-- `x < 0`
abbrev pub is_neg : ℤ → Bool
is_neg (pos n) = false
is_neg (negsuc n) = true

-- `x <= 0`
abbrev pub is_nonpos : ℤ → Bool
is_nonpos (pos n) = n == 0
is_nonpos (negsuc n) = true

abbrev pub eq_ℤ : ℤ → ℤ → Bool
eq_ℤ (pos m) (pos n) = m == n
eq_ℤ (negsuc m) (negsuc n) = m == n
eq_ℤ _ _ = false

-- The `int` that a bit pattern of 32 bits stands for.
abbrev pub int_of : ℕ → ℤ
int_of w = if ltb (w % 2 ^ 32) (2 ^ 31) then pos (w % 2 ^ 32) else negsuc (2 ^ 32 - w % 2 ^ 32 - 1)

-- The bit pattern of an `int`, as `%u` prints it.
abbrev pub unsigned_of : ℤ → ℕ
unsigned_of (pos n) = n % 2 ^ 32
unsigned_of (negsuc n) = 2 ^ 32 - 1 - n % 2 ^ 32

-- `a | b` in two's complement, where negsuc n is the complement of n.
unfoldable pub or_ℤ : ℤ → ℤ → ℤ
or_ℤ (pos m) (pos n) = pos (bit_or m n)
or_ℤ (pos m) (negsuc n) = negsuc (bit_xor n (bit_and n m))
or_ℤ (negsuc m) (pos n) = negsuc (bit_xor m (bit_and m n))
or_ℤ (negsuc m) (negsuc n) = negsuc (bit_and m n)

pub is_neg-or_ℤ : (a b : ℤ) → is_neg (or_ℤ a b) ≡ (is_neg a || is_neg b)
unfolding or_ℤ
is_neg-or_ℤ (pos m) (pos n) = refl
is_neg-or_ℤ (pos m) (negsuc n) = refl
is_neg-or_ℤ (negsuc m) (pos n) = refl
is_neg-or_ℤ (negsuc m) (negsuc n) = refl

pub eq_ℤ-refl : (a : ℤ) → eq_ℤ a a ≡ true
eq_ℤ-refl (pos n) = ground arith
eq_ℤ-refl (negsuc n) = ground arith

-- Signed order, as `ground` reads it.
abbrev pub ltb_ℤ : ℤ → ℤ → Bool
ltb_ℤ (pos m) (pos n) = ltb m n
ltb_ℤ (pos m) (negsuc n) = false
ltb_ℤ (negsuc m) (pos n) = true
ltb_ℤ (negsuc m) (negsuc n) = ltb n m

-- Sums and differences of `int`, wrapped to 32 bits (C leaves an overflow undefined).
abbrev pub add_int : ℤ → ℤ → ℤ
add_int a b = int_of (unsigned_of a + unsigned_of b)

abbrev pub sub_int : ℤ → ℤ → ℤ
sub_int a b = int_of (unsigned_of a + 2 ^ 32 - unsigned_of b)
