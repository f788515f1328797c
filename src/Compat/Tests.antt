-- ===== src/Compat/Tests.antt =====
-- src/hev-compat.c: `natmap -dp80 -s stun --`.
use natmap.Prelude.{ℕ, ◌≡◌, refl, List, [], ◌∷◌, none, some, true, false, suc, arith, All}
use natmap.Compat.{initial, strchr, options}
use natmap.Compat.Grammar.{Declared, Items, read}
use natmap.Compat.Kinds.{optstring_of}
use natmap.Compat.Words.{words_from}
use natmap.Compat.Reading.{options-read}
use natmap.Compat.Printed.{Setting, words_of, items_of}
use natmap.Compat.Ends.{IsText, letters_from, options-some}

abbrev argv : List (List ℕ)
argv =
    (b'n' ∷ b'a' ∷ b't' ∷ b'm' ∷ b'a' ∷ b'p' ∷ [])
    ∷ (b'-' ∷ b'd' ∷ b'p' ∷ b'8' ∷ b'0' ∷ [])
    ∷ (b'-' ∷ b's' ∷ [])
    ∷ (b's' ∷ b't' ∷ b'u' ∷ b'n' ∷ [])
    ∷ (b'-' ∷ b'-' ∷ [])
    ∷ []

abbrev optstring : List ℕ
optstring = b'd' ∷ b'p' ∷ b':' ∷ b's' ∷ b':' ∷ []

argv-IsText : All IsText argv
argv-IsText = omega arith

options-some_example :
    (items : List (ℕ × List ℕ)) × (options argv optstring (suc (letters_from argv 1)) initial
      ≡ some items)
options-some_example = options-some argv optstring argv-IsText

-- What the loop sees.
seen :
    options argv optstring (suc (letters_from argv 1)) initial
    ≡ some ((b'd', []) ∷ (b'p', b'8' ∷ b'0' ∷ []) ∷ (b's', b's' ∷ b't' ∷ b'u' ∷ b'n' ∷ []) ∷ [])
unfolding options strchr
seen = refl

abbrev declared : Declared
declared = (b'd', false) ∷ (b'p', true) ∷ (b's', true) ∷ []

options-read_example :
    let n = suc (letters_from argv 1) in
    (items : Items) × (options argv (optstring_of declared) n initial ≡ some items)
    × (read declared n [] (words_from argv 1) [] ≡ some items)
options-read_example = options-read argv declared argv-IsText (omega arith)

-- `natmap -p 80 -d -s ""`
abbrev settings : List Setting
settings = (b'p', some (b'8' ∷ b'0' ∷ [])) ∷ (b'd', none) ∷ (b's', some []) ∷ []

settings_seen :
    let line = (b'n' ∷ []) ∷ words_of settings in
    options line (optstring_of declared) (suc (letters_from line 1)) initial
    ≡ some (items_of [] settings)
unfolding options strchr
settings_seen = refl
