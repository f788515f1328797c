-- ===== src/Text.antt =====
-- The parts of libc that read and print numbers and server names, as the program uses them: texts
-- are lists of character codes without the final zero.
pub mod Decimal
pub mod Server
pub mod Scan
mod Tests
use natmap.Prelude.{
  ℕ, zero, suc, ◌+◌, ◌-◌, ◌*◌, ◌/◌, ◌%◌, ◌^◌, Bool, true, false, ◌&&◌, ◌||◌, List, [], ◌∷◌, Option,
  none, some, ltb, leb, ◌==◌, if◌then◌else◌, length,
}

-- `isspace` in the C locale.
abbrev pub is_space : ℕ → Bool
is_space c = c == 32 || leb 9 c && leb c 13

pub skip_space : List ℕ → List ℕ
skip_space [] = []
skip_space (c ∷ s) = if is_space c then skip_space s else c ∷ s

-- The value of a digit in any base up to 16, or 16 for another character.
abbrev pub digit : ℕ → ℕ
digit c =
    if leb b'0' c && leb c b'9'
    then c - b'0'
    else if leb b'a' c && leb c b'f'
    then c - b'a' + 10
    else if leb b'A' c && leb c b'F'
    then c - b'A' + 10
    else 16

-- All digits of a base from here on, added to what was read, and the rest of the text.
pub read_digits : ℕ → ℕ → List ℕ → ℕ × List ℕ
read_digits base acc [] = (acc, [])
read_digits base acc (c ∷ s) =
    let rest = read_digits base (acc * base + digit c) s in
    if ltb (digit c) base then rest else (acc, c ∷ s)

-- `unsigned long` holds 64 bits: a larger number is read as the largest, a minus sign negates.
abbrev pub ulong : Bool → ℕ → ℕ
ulong minus n = if ltb n (2 ^ 64) then (if minus then (2 ^ 64 - n) % 2 ^ 64 else n) else 2 ^ 64 - 1

-- A sign that stands in front is taken off.
abbrev pub has_minus : List ℕ → Bool
has_minus [] = false
has_minus (c ∷ s) = c == b'-'

abbrev pub skip_sign : List ℕ → List ℕ
skip_sign [] = []
skip_sign (c ∷ s) = if c == b'-' || c == b'+' then s else c ∷ s

-- A number of a base that begins here: at least one digit.
pub read_number : ℕ → Bool → List ℕ → Option (ℕ × List ℕ)
unfolding read_digits
read_number base minus [] = none
read_number base minus (c ∷ s) =
    if ltb (digit c) base
    then (let (n, rest) = read_digits base 0 (c ∷ s) in some (ulong minus n, rest))
    else none

-- `%u`: spaces, a sign, decimal digits.
unfoldable pub scan_unsigned : List ℕ → Option (ℕ × List ℕ)
unfolding skip_space read_number
scan_unsigned s = let t = skip_space s in read_number 10 (has_minus t) (skip_sign t)

abbrev value_or_zero : Option (ℕ × List ℕ) → ℕ
value_or_zero none = 0
value_or_zero (some (n, rest)) = n

-- `strtoul (s, NULL, 10)`, 0 where no number begins.
unfoldable pub strtoul10 : List ℕ → ℕ
unfolding scan_unsigned
strtoul10 s = value_or_zero (scan_unsigned s)

-- `strtoul (s, NULL, 0)`: hexadecimal behind 0x, octal behind 0, else decimal.
abbrev by_prefix : Bool → List ℕ → Option (ℕ × List ℕ)
by_prefix minus (c0 ∷ c1 ∷ c2 ∷ s) =
    if c0 == b'0' && (c1 == b'x' || c1 == b'X') && ltb (digit c2) 16
    then read_number 16 minus (c2 ∷ s)
    else read_number (if c0 == b'0' then 8 else 10) minus (c0 ∷ c1 ∷ c2 ∷ s)
by_prefix minus (c0 ∷ s) = read_number (if c0 == b'0' then 8 else 10) minus (c0 ∷ s)
by_prefix minus [] = none

unfoldable pub strtoul0 : List ℕ → ℕ
unfolding skip_space read_number
strtoul0 s = let t = skip_space s in value_or_zero (by_prefix (has_minus t) (skip_sign t))

-- Decimal digits in front of a text; ten digits hold 32 bits.
unfoldable pub print_digits : ℕ → ℕ → List ℕ → List ℕ
print_digits zero n rest = rest
print_digits (suc fuel) n rest =
    let more = print_digits fuel (n / 10) ((b'0' + n % 10) ∷ rest) in
    if ltb n 10 then (b'0' + n) ∷ rest else more

-- `%u` of an `unsigned int`.
unfoldable pub print_unsigned : ℕ → List ℕ
unfolding print_digits
print_unsigned n = print_digits 10 n []

-- `%255[^:]`: characters up to a colon, as many as the width allows.
pub span_host : ℕ → List ℕ → List ℕ × List ℕ
span_host zero s = ([], s)
span_host (suc width) [] = ([], [])
span_host (suc width) (c ∷ s) =
    let (h, rest) = span_host width s in if c == b':' then ([], c ∷ s) else (c ∷ h, rest)

-- `%5[0123456789]`
pub span_digits : ℕ → List ℕ → List ℕ
span_digits zero s = []
span_digits (suc width) [] = []
span_digits (suc width) (c ∷ s) =
    let d = span_digits width s in if leb b'0' c && leb c b'9' then c ∷ d else []

-- An empty match assigns nothing.
abbrev pub or_old : List ℕ → List ℕ → List ℕ
or_old [] old = old
or_old (c ∷ s) old = c ∷ s

abbrev pub port_part : List ℕ → List ℕ → List ℕ → List ℕ
port_part [] rest old = old
port_part (c ∷ h) [] old = old
port_part (c ∷ h) (d ∷ rest) old = if d == b':' then or_old (span_digits 5 rest) old else old

-- `sscanf (arg, "%255[^:]:%5[0123456789]", host, port)`
unfoldable pub scan_server : List ℕ → List ℕ → List ℕ → List ℕ × List ℕ
unfolding span_host span_digits
scan_server arg host port =
    let (h, rest) = span_host 255 arg in (or_old h host, port_part h rest port)
