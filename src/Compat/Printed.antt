-- ===== src/Compat/Printed.antt =====
-- src/hev-compat.c: a command line that was written out, option by option.
use natmap.Prelude.{
  ℕ, zero, suc, ◌<◌, ◌≤◌, ◌≡◌, ◌≢◌, refl, sym, ◌∙◌, List, [], ◌∷◌, Option, none, some, arith,
  length, All,
}
use natmap.Compat.{initial, options}
use natmap.Compat.Ends.{letters_from, IsText}
use natmap.Compat.Grammar.{
  flag, takes, Declared, kind, letters_of, Items, argument, letter_item, word_item, read,
}
use natmap.Compat.Kinds.{optstring_of, AreLetters}
use natmap.Compat.Reading.{options-read}

-- An option, with its argument if it takes one.
abbrev pub Setting : Type 0
Setting = ℕ × Option (List ℕ)

-- Each option in a word of its own, and so its argument.
abbrev pub words_of : List Setting → List (List ℕ)
words_of [] = []
words_of ((c, none) ∷ l) = (b'-' ∷ c ∷ []) ∷ words_of l
words_of ((c, some arg) ∷ l) = (b'-' ∷ c ∷ []) ∷ arg ∷ words_of l

-- The options with `optarg`, which an option without an argument leaves as it was.
abbrev pub items_of : List ℕ → List Setting → Items
items_of old [] = []
items_of old ((c, none) ∷ l) = (c, old) ∷ items_of old l
items_of old ((c, some arg) ∷ l) = (c, arg) ∷ items_of arg l

-- A declared option, which is no dash, with an argument exactly if it takes one.
abbrev pub IsSetting : Declared → Setting → Type 0
IsSetting os (c, none) = (kind os c ≡ flag) × (c ≢ b'-') × (c ≢ 0)
IsSetting os (c, some arg) = (kind os c ≡ takes) × (c ≢ b'-') × (c ≢ 0) × IsText arg

letters_of-option : (c : ℕ) → c ≢ b'-' → letters_of (b'-' ∷ c ∷ []) ≡ c ∷ []
letters_of-option c h = ground arith

read-words_of :
    (os : Declared) (l : List Setting) (n : ℕ) (old : List ℕ)
    → All (IsSetting os) l
    → length l < n
    → read os n [] (words_of l) old ≡ some (items_of old l)
unfolding read word_item letter_item argument
read-words_of os l zero old h enough = absurd (omega arith)
read-words_of os [] (suc n) old h enough = refl
read-words_of os ((c, none) ∷ l) (suc n) old ((declared, letter, real), h) enough =
    let ih = read-words_of os l n old h (omega arith) in
    rw (letters_of-option c letter, declared, ih) refl
read-words_of os ((c, some arg) ∷ l) (suc n) old ((declared, letter, real, text), h) enough =
    let ih = read-words_of os l n arg h (omega arith) in
    rw (letters_of-option c letter, declared, ih) refl

IsText-words_of :
    (os : Declared) (l : List Setting) → All (IsSetting os) l → All IsText (words_of l)
IsText-words_of os [] h = tt
IsText-words_of os ((c, none) ∷ l) ((declared, letter, real), h) =
    ((omega arith, (real, tt)), IsText-words_of os l h)
IsText-words_of os ((c, some arg) ∷ l) ((declared, letter, real, text), h) =
    ((omega arith, (real, tt)), (text, IsText-words_of os l h))

letters_from-words_of : (l : List Setting) → length l ≤ letters_from (words_of l) 0
letters_from-words_of [] = omega arith
letters_from-words_of ((c, none) ∷ l) = let ih = letters_from-words_of l in omega (arith, ih)
letters_from-words_of ((c, some arg) ∷ l) = let ih = letters_from-words_of l in omega (arith, ih)

-- For declared options of which none is a colon, and settings of declared options that are neither
-- dashes nor zero, with texts as the arguments of those that take one and of no others: from the
-- start of the command line that names the program and then holds the settings, each option and
-- each argument in a word of its own, the loop over `getopt` sees exactly these options, in order,
-- with their arguments, and at the others the last argument before. Its fuel is the number of the
-- characters behind the program's name, and one more.
pub options-words_of :
    (os : Declared) (name : List ℕ) (l : List Setting)
    → AreLetters os
    → IsText name
    → All (IsSetting os) l
    → let argv = name ∷ words_of l in
      options argv (optstring_of os) (suc (letters_from argv 1)) initial ≡ some (items_of [] l)
options-words_of os name l are text h =
    let argv = name ∷ words_of l in
    let few = letters_from-words_of l in
    let (items, seen, there) = options-read argv os (text, IsText-words_of os l h) are in
    seen ∙ (sym there ∙ read-words_of os l (suc (letters_from argv 1)) [] h (omega (arith, few)))
