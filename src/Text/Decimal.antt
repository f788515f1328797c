-- ===== src/Text/Decimal.antt =====
-- Printing an unsigned number and reading it back.
use natmap.Prelude.{
  ℕ, zero, suc, ◌+◌, ◌/◌, ◌%◌, ◌^◌, ◌≤◌, ◌<◌, ◌≡◌, ◌≢◌, refl, ap, ◌∙◌, inl, inr, Bool-cases, ltb,
  List, [], ◌∷◌, arith, length,
}
use native.Mathlib.Nat.{pow-suc}
use natmap.Text.{read_digits, strtoul10, print_digits, print_unsigned}

read-print_digits :
    (fuel n : ℕ) (rest : List ℕ)
    → n < 10 ^ suc fuel
    → read_digits 10 0 (print_digits (suc fuel) n rest) ≡ read_digits 10 n rest
unfolding read_digits print_digits
read-print_digits zero n rest h = ground arith
read-print_digits (suc fuel) n rest h =
    let smaller = pow-suc 10 (suc fuel) in
    let ih = read-print_digits fuel (n / 10) ((b'0' + n % 10) ∷ rest) (omega (arith, smaller)) in
    elim (Bool-cases (ltb n 10)) [
      | inl short ↦ rw short (ground arith)
      | inr long ↦ rw long (ih ∙ ground arith)
    ]

-- The text begins with a decimal digit.
abbrev BeginsWithDigit : List ℕ → Type 0
BeginsWithDigit s = (c : ℕ) × (t : List ℕ) × (s ≡ c ∷ t) × (b'0' ≤ c) × (c ≤ b'9')

print_digits-BeginsWithDigit :
    (fuel n : ℕ) (rest : List ℕ) → BeginsWithDigit rest → BeginsWithDigit (print_digits fuel n rest)
unfolding print_digits
print_digits-BeginsWithDigit zero n rest h = h
print_digits-BeginsWithDigit (suc fuel) n rest h =
    let ih =
      print_digits-BeginsWithDigit fuel (n / 10) ((b'0' + n % 10) ∷ rest)
        (b'0' + n % 10, rest, refl, omega arith, omega arith) in
    elim (Bool-cases (ltb n 10)) [
      | inl short ↦ rw short (b'0' + n, rest, refl, omega arith, ground arith)
      | inr long ↦ rw long ih
    ]

print_unsigned-BeginsWithDigit : (n : ℕ) → BeginsWithDigit (print_unsigned n)
unfolding print_unsigned print_digits
print_unsigned-BeginsWithDigit n =
    let ih =
      print_digits-BeginsWithDigit 9 (n / 10) ((b'0' + n % 10) ∷ [])
        (b'0' + n % 10, [], refl, omega arith, omega arith) in
    elim (Bool-cases (ltb n 10)) [
      | inl short ↦ rw short (b'0' + n, [], refl, omega arith, ground arith)
      | inr long ↦ rw long ih
    ]

-- A text that begins with a digit is read as the value of its digits.
strtoul10-digits :
    (s : List ℕ) (n : ℕ)
    → BeginsWithDigit s
    → (read_digits 10 0 s).0 ≡ n
    → n < 2 ^ 64
    → strtoul10 s ≡ n
unfolding strtoul10
strtoul10-digits s n (c, t, e, lo, hi) h small = ground arith

-- `strtoul` reads back any 32-bit number that `%u` printed.
pub strtoul10-print_unsigned : (n : ℕ) → n < 2 ^ 32 → strtoul10 (print_unsigned n) ≡ n
unfolding print_unsigned read_digits
strtoul10-print_unsigned n small =
    strtoul10-digits (print_unsigned n) n (print_unsigned-BeginsWithDigit n)
      (ap (λ r. r.0) (read-print_digits 9 n [] (omega arith))) (omega arith)

-- A printed number is not the empty text.
pub print_unsigned-ne-nil : (n : ℕ) → print_unsigned n ≢ []
print_unsigned-ne-nil n e = let (c, t, printed, lo, hi) = print_unsigned-BeginsWithDigit n in cc

pub length-print_digits :
    (fuel n : ℕ) (rest : List ℕ) → length (print_digits fuel n rest) ≤ fuel + length rest
unfolding print_digits
length-print_digits zero n rest = omega arith
length-print_digits (suc fuel) n rest =
    let ih = length-print_digits fuel (n / 10) ((b'0' + n % 10) ∷ rest) in
    elim (Bool-cases (ltb n 10)) [
      | inl short ↦ rw short (omega arith)
      | inr long ↦ rw long (omega (arith, ih))
    ]

-- A printed number has at most ten digits.
pub length-print_unsigned : (n : ℕ) → length (print_unsigned n) ≤ 10
unfolding print_unsigned
length-print_unsigned n = omega (arith, length-print_digits 10 n [])
