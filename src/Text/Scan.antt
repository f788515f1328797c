-- ===== src/Text/Scan.antt =====
-- `sscanf` for the conversions that src/hev-misc.c uses, as a list of directives.
pub mod Printed
use natmap.Prelude.{
  ℕ, zero, suc, Bool, List, [], ◌∷◌, Option, none, some, ltb, ◌==◌, ◌&&◌, ◌||◌, if◌then◌else◌,
}
use natmap.Text.{digit, skip_space, has_minus, skip_sign, read_number}

-- `%d` or `%lu`, `%X` or `%lX`, `%64[0-9A-Fa-f]`, a space, and another character.
pub data Directive : Type 0 where
  decimal hex hex_run blank : Directive
  literal : ℕ → Directive

-- Behind `0x`, where that stands in front.
pub skip_prefix : List ℕ → List ℕ
skip_prefix (c0 ∷ c1 ∷ s) = if c0 == b'0' && (c1 == b'x' || c1 == b'X') then s else c0 ∷ c1 ∷ s
skip_prefix s = s

-- Up to so many hexadecimal digits are skipped.
pub skip_run : ℕ → List ℕ → List ℕ
skip_run zero s = s
skip_run (suc width) [] = []
skip_run (suc width) (c ∷ s) =
    let rest = skip_run width s in if ltb (digit c) 16 then rest else c ∷ s

abbrev pub begins_with_digit : List ℕ → Bool
begins_with_digit [] = Bool.false
begins_with_digit (c ∷ s) = ltb (digit c) 16

abbrev pub with_value : ℕ → Option (List ℕ) → Option (List ℕ)
with_value n none = none
with_value n (some values) = some (n ∷ values)

-- Behind a number, or where none begins.
pub go_on : Option (ℕ × List ℕ) → (List ℕ → Option (List ℕ)) → Option (List ℕ)
go_on none next = none
go_on (some (n, s)) next = with_value n (next s)

-- The values of the numbers, null where a directive does not match. The texts of runs are not kept.
unfoldable pub scan : List Directive → List ℕ → Option (List ℕ)
unfolding skip_space read_number skip_prefix skip_run go_on
scan [] s = some []
scan (decimal ∷ ds) s =
    let t = skip_space s in go_on (read_number 10 (has_minus t) (skip_sign t)) (scan ds)
scan (hex ∷ ds) s =
    let t = skip_space s in
    go_on (read_number 16 (has_minus t) (skip_prefix (skip_sign t))) (scan ds)
scan (hex_run ∷ ds) s =
    let next = scan ds (skip_run 64 s) in if begins_with_digit s then next else none
scan (blank ∷ ds) s = scan ds (skip_space s)
scan (literal c ∷ ds) [] = none
scan (literal c ∷ ds) (c' ∷ s) = let next = scan ds s in if c == c' then next else none
