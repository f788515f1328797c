-- ===== src/Prelude/Xor.antt =====
-- Exclusive or at variables: the step on the lowest digit, the split at a bit, and that a mask
-- undoes itself.
use Prim.Native.Nat.{
  ℕ, zero, suc, ◌+◌, ◌*◌, ◌/◌, ◌%◌, ◌^◌, ◌≤◌, ◌<◌, bit_xor, digits, differ, bit_xor-bitwise,
}
use mathlib.Core.Path.{◌≡◌, refl, ap}
use native.Mathlib.Nat.{pow-suc}
use native.Mathlib.Omega.{arith}

abbrev xor_digits : ℕ → ℕ → ℕ → ℕ
xor_digits n a b = digits (λ y. y) differ n a b

xor_digits-zero : (n b : ℕ) → xor_digits n 0 b ≡ b
xor_digits-zero zero b = refl
xor_digits-zero (suc n) b = refl

-- More rounds than the number has digits change nothing.
xor_digits_fuel : (a b n m : ℕ) → a < suc n → a < suc m → xor_digits n a b ≡ xor_digits m a b
xor_digits_fuel zero b n m in_n in_m = omega (arith, xor_digits-zero n b, xor_digits-zero m b)
xor_digits_fuel (suc a) b zero m in_n in_m = absurd (omega arith)
xor_digits_fuel (suc a) b (suc n) zero in_n in_m = absurd (omega arith)
xor_digits_fuel (suc a) b (suc n) (suc m) in_n in_m =
    let halved = xor_digits_fuel (suc a / 2) (b / 2) n m (omega arith) (omega arith) in
    omega (arith, halved)

differ_digit : (x y : ℕ) → x < 2 → y < 2 → differ x y ≡ (x + y) % 2
differ_digit zero y p q = omega arith
differ_digit (suc zero) zero p q = refl
differ_digit (suc zero) (suc zero) p q = refl
differ_digit (suc zero) (suc (suc y)) p q = absurd (omega arith)
differ_digit (suc (suc x)) y p q = absurd (omega arith)

pub zero-xor : (b : ℕ) → bit_xor 0 b ≡ b
zero-xor b = bit_xor-bitwise 0 b

pub xor_step : (a b : ℕ) → bit_xor a b ≡ bit_xor (a / 2) (b / 2) * 2 + (a % 2 + b % 2) % 2
xor_step zero b = omega (arith, zero-xor b, zero-xor (b / 2))
xor_step (suc a) b = omega (
  arith,
  bit_xor-bitwise (suc a) b,
  bit_xor-bitwise (suc a / 2) (b / 2),
  xor_digits_fuel (suc a / 2) (b / 2) a (suc a / 2) (omega arith) (omega arith),
  differ_digit (suc a % 2) (b % 2) (omega arith) (omega arith),
)

xor_undo_fuel : (n a m : ℕ) → a ≤ n → m ≤ n → bit_xor (bit_xor a m) m ≡ a
xor_undo_fuel zero zero zero p q = refl
xor_undo_fuel zero zero (suc m) p q = absurd (omega arith)
xor_undo_fuel zero (suc a) m p q = absurd (omega arith)
xor_undo_fuel (suc n) a m p q =
    let low : bit_xor a m / 2 ≡ bit_xor (a / 2) (m / 2) = omega (arith, xor_step a m) in
    omega (
      arith,
      xor_step a m,
      xor_step (bit_xor a m) m,
      ap (λ t. bit_xor t (m / 2)) low,
      xor_undo_fuel n (a / 2) (m / 2) (omega arith) (omega arith),
    )

-- The same mask twice gives the word back.
pub xor_undo : (a m : ℕ) → bit_xor (bit_xor a m) m ≡ a
xor_undo a m = xor_undo_fuel (a + m) a m (omega arith) (omega arith)

double : (q k : ℕ) → q * 2 ^ suc k ≡ 2 * (q * 2 ^ k)
double q k = omega (arith, ap (λ (t : ℕ). q * t) (pow-suc 2 k))

pub xor-lt : (k a b : ℕ) → a < 2 ^ k → b < 2 ^ k → bit_xor a b < 2 ^ k
xor-lt zero a b p q =
    let e : a ≡ 0 = omega arith in let f : b ≡ 0 = omega arith in ground (arith, zero-xor b)
xor-lt (suc k) a b p q =
    let halved = pow-suc 2 k in
    omega (arith, xor_step a b, halved, xor-lt k (a / 2) (b / 2) (omega arith) (omega arith))

-- Exclusive or acts on the bits above `k` and below it apart.
pub xor_split :
    (k q r p s : ℕ)
    → r < 2 ^ k
    → s < 2 ^ k
    → bit_xor (q * 2 ^ k + r) (p * 2 ^ k + s) ≡ bit_xor q p * 2 ^ k + bit_xor r s
xor_split zero q r p s hr hs = ground (arith, zero-xor 0)
xor_split (suc k) q r p s hr hs =
    let halved = pow-suc 2 k in
    let hi : (q * 2 ^ suc k + r) / 2 ≡ q * 2 ^ k + r / 2 = omega (arith, double q k) in
    let lo : (p * 2 ^ suc k + s) / 2 ≡ p * 2 ^ k + s / 2 = omega (arith, double p k) in
    omega (
      arith,
      xor_step (q * 2 ^ suc k + r) (p * 2 ^ suc k + s),
      xor_step r s,
      ap₂' hi lo,
      double q k,
      double p k,
      double (bit_xor q p) k,
      xor_split k q (r / 2) p (s / 2) (omega arith) (omega arith),
    )
  where
    ap₂' : {a b c d : ℕ} → a ≡ b → c ≡ d → bit_xor a c ≡ bit_xor b d
    ap₂' e f = λ i. bit_xor (e i) (f i)
