-- ===== src/Text/Scan/Printed.antt =====
-- What `sscanf` reads back of a text that was printed by the same format.
use natmap.Prelude.{
  ℕ, zero, suc, ◌+◌, ◌*◌, ◌^◌, ◌≤◌, ◌≡◌, refl, ap, ◌∙◌, List, [], ◌∷◌, ◌++◌, map, Bool, true, not,
  false, ◌&&◌, ◌||◌, some, arith, ltb, leb, ◌==◌, length,
}
use natmap.Text.{digit, is_space, skip_space, read_digits, read_number, has_minus, skip_sign}
use natmap.Text.Scan.{
  Directive, decimal, hex, hex_run, blank, literal, skip_prefix, skip_run, go_on, with_value, scan,
}

-- The number that digits stand for, behind what was read before.
abbrev pub value : ℕ → ℕ → List ℕ → ℕ
value base acc [] = acc
value base acc (c ∷ s) = value base (acc * base + digit c) s

abbrev pub are_digits : ℕ → List ℕ → Bool
are_digits base [] = true
are_digits base (c ∷ s) = ltb (digit c) base && are_digits base s

-- No digit, sign or prefix goes on here.
abbrev pub ends : List ℕ → Bool
ends [] = true
ends (c ∷ s) = c == 32 || c == b':'

read_digits-value :
    (base acc : ℕ) (s rest : List ℕ)
    → base ≤ 16
    → are_digits base s ≡ true
    → ends rest ≡ true
    → read_digits base acc (s ++ rest) ≡ (value base acc s, rest)
unfolding read_digits
read_digits-value base acc [] [] h d e = refl
read_digits-value base acc [] (c ∷ rest) h d e = ground arith
read_digits-value base acc (c ∷ s) rest h d e =
    let ih = read_digits-value base (acc * base + digit c) s rest h (ground arith) e in
    ground (arith, ih)

-- At least one digit, of a number that fits 64 bits.
abbrev pub is_number : ℕ → List ℕ → Bool
is_number base [] = false
is_number base (c ∷ s) = are_digits base (c ∷ s) && ltb (value base 0 (c ∷ s)) (2 ^ 64)

read_number-value :
    (base : ℕ) (s rest : List ℕ)
    → base ≤ 16
    → is_number base s ≡ true
    → ends rest ≡ true
    → read_number base false (s ++ rest) ≡ some (value base 0 s, rest)
unfolding read_number
read_number-value base [] rest h d e = ground arith
read_number-value base (c ∷ s) rest h d e =
    let all = read_digits-value base 0 (c ∷ s) rest h (ground arith) e in ground (arith, all)

-- In front of a digit nothing is skipped.
skip_space_digits :
    (base : ℕ) (s rest : List ℕ)
    → base ≤ 16
    → is_number base s ≡ true
    → skip_space (s ++ rest) ≡ s ++ rest
unfolding skip_space
skip_space_digits base [] rest h d = ground arith
skip_space_digits base (c ∷ s) rest h d = ground arith

no_sign :
    (base : ℕ) (s rest : List ℕ)
    → base ≤ 16
    → is_number base s ≡ true
    → (has_minus (s ++ rest) ≡ false) × (skip_sign (s ++ rest) ≡ s ++ rest)
no_sign base [] rest h d = ground arith
no_sign base (c ∷ s) rest h d = ground arith

no_prefix :
    (s rest : List ℕ)
    → is_number 16 s ≡ true
    → ends rest ≡ true
    → skip_prefix (s ++ rest) ≡ s ++ rest
unfolding skip_prefix
no_prefix [] rest d e = ground arith
no_prefix (c ∷ []) [] d e = refl
no_prefix (c ∷ []) (c1 ∷ rest) d e = ground arith
no_prefix (c ∷ c1 ∷ s) rest d e = ground arith

abbrev pub blanks : ℕ → List ℕ → List ℕ
blanks zero s = s
blanks (suc n) s = 32 ∷ blanks n s

skip_space-blanks : (n : ℕ) (s : List ℕ) → skip_space (blanks n s) ≡ skip_space s
unfolding skip_space
skip_space-blanks zero s = refl
skip_space-blanks (suc n) s = skip_space-blanks n s

skip_run_digits :
    (width : ℕ) (s rest : List ℕ)
    → length s ≤ width
    → are_digits 16 s ≡ true
    → ends rest ≡ true
    → skip_run width (s ++ rest) ≡ rest
unfolding skip_run
skip_run_digits zero [] rest w d e = refl
skip_run_digits zero (c ∷ s) rest w d e = absurd (omega arith)
skip_run_digits (suc width) [] [] w d e = refl
skip_run_digits (suc width) [] (c ∷ rest) w d e = ground arith
skip_run_digits (suc width) (c ∷ s) rest w d e =
    let ih = skip_run_digits width s rest (omega arith) (ground arith) e in ground (arith, ih)

-- A part of a printed line.
pub data Token : Type 0 where
  number16 run : List ℕ → Token
  number10 : (pad : ℕ) → List ℕ → Token
  gap : ℕ → Token
  mark : ℕ → Token

abbrev pub directive : Token → Directive
directive (number10 pad s) = decimal
directive (number16 s) = hex
directive (run s) = hex_run
directive (gap n) = blank
directive (mark c) = literal c

-- Printed in front of a text.
abbrev pub print : List Token → List ℕ → List ℕ
print [] rest = rest
print (number10 pad s ∷ ts) rest = blanks pad (s ++ print ts rest)
print (number16 s ∷ ts) rest = s ++ print ts rest
print (run s ∷ ts) rest = s ++ print ts rest
print (gap n ∷ ts) rest = blanks n (print ts rest)
print (mark c ∷ ts) rest = c ∷ print ts rest

abbrev pub values : List Token → List ℕ
values [] = []
values (number10 pad s ∷ ts) = value 10 0 s ∷ values ts
values (number16 s ∷ ts) = value 16 0 s ∷ values ts
values (run s ∷ ts) = values ts
values (gap n ∷ ts) = values ts
values (mark c ∷ ts) = values ts

abbrev begins_solid : List ℕ → Bool
begins_solid [] = true
begins_solid (c ∷ s) = not (is_space c)

abbrev is_run : List ℕ → Bool
is_run [] = false
is_run (c ∷ s) = are_digits 16 (c ∷ s) && leb (length (c ∷ s)) 64

-- Whether the parts are digits where they should be, and end where the next one begins.
abbrev pub is_printed : List Token → List ℕ → Bool
is_printed [] rest = true
is_printed (number10 pad s ∷ ts) rest = is_number 10 s && ends (print ts rest) && is_printed ts rest
is_printed (number16 s ∷ ts) rest = is_number 16 s && ends (print ts rest) && is_printed ts rest
is_printed (run s ∷ ts) rest = is_run s && ends (print ts rest) && is_printed ts rest
is_printed (gap n ∷ ts) rest = begins_solid (print ts rest) && is_printed ts rest
is_printed (mark c ∷ ts) rest = is_printed ts rest

scan-number10 :
    (pad : ℕ) (s rest : List ℕ) (ds : List Directive)
    → is_number 10 s ≡ true
    → ends rest ≡ true
    → scan (decimal ∷ ds) (blanks pad (s ++ rest)) ≡ with_value (value 10 0 s) (scan ds rest)
unfolding scan go_on
scan-number10 pad s rest ds d e =
    let skipped = skip_space-blanks pad (s ++ rest) ∙ skip_space_digits 10 s rest (omega arith) d in
    let (plus, unsigned) = no_sign 10 s rest (omega arith) d in
    rw (skipped, plus, unsigned, read_number-value 10 s rest (omega arith) d e) refl

scan-number16 :
    (s rest : List ℕ) (ds : List Directive)
    → is_number 16 s ≡ true
    → ends rest ≡ true
    → scan (hex ∷ ds) (s ++ rest) ≡ with_value (value 16 0 s) (scan ds rest)
unfolding scan go_on
scan-number16 s rest ds d e =
    let skipped = skip_space_digits 16 s rest (omega arith) d in
    let (plus, unsigned) = no_sign 16 s rest (omega arith) d in
    rw
      (skipped, plus, unsigned, no_prefix s rest d e, read_number-value 16 s rest (omega arith) d e)
      refl

scan-run :
    (s rest : List ℕ) (ds : List Directive)
    → is_run s ≡ true
    → ends rest ≡ true
    → scan (hex_run ∷ ds) (s ++ rest) ≡ scan ds rest
unfolding scan
scan-run [] rest ds d e = ground arith
scan-run (c ∷ s) rest ds d e =
    let skipped = skip_run_digits 64 (c ∷ s) rest (ground arith) (ground arith) e in
    ground (arith, skipped)

skip_space_solid : (s : List ℕ) → begins_solid s ≡ true → skip_space s ≡ s
unfolding skip_space
skip_space_solid [] h = refl
skip_space_solid (c ∷ s) h = ground arith

-- A printed line is read back by the directives of its parts.
pub scan-print :
    (ts : List Token) (rest : List ℕ)
    → is_printed ts rest ≡ true
    → scan (map directive ts) (print ts rest) ≡ some (values ts)
unfolding scan
scan-print [] rest h = refl
scan-print (number10 pad s ∷ ts) rest h =
    scan-number10 pad s (print ts rest) (map directive ts) (ground arith) (ground arith)
    ∙ ap (with_value (value 10 0 s)) (scan-print ts rest (ground arith))
scan-print (number16 s ∷ ts) rest h =
    scan-number16 s (print ts rest) (map directive ts) (ground arith) (ground arith)
    ∙ ap (with_value (value 16 0 s)) (scan-print ts rest (ground arith))
scan-print (run s ∷ ts) rest h =
    scan-run s (print ts rest) (map directive ts) (ground arith) (ground arith)
    ∙ scan-print ts rest (ground arith)
scan-print (gap n ∷ ts) rest h =
    ap (scan (map directive ts))
      (skip_space-blanks n (print ts rest) ∙ skip_space_solid (print ts rest) (ground arith))
    ∙ scan-print ts rest (ground arith)
scan-print (mark c ∷ ts) rest h = let ih = scan-print ts rest h in ground (arith, ih)
