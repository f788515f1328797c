-- ===== src/Compat/Grammar.antt =====
-- Which options a command line holds, by its words and letters alone: what POSIX asks of `getopt`.
use natmap.Prelude.{
  ℕ, zero, suc, Bool, true, false, List, [], ◌∷◌, Option, none, some, ◌==◌, if◌then◌else◌,
}

-- A letter that is no option, an option alone, or an option with an argument.
pub data Kind : Type 0 where
  unknown flag takes : Kind

-- The options of a program: letters, and whether they take an argument.
abbrev pub Declared : Type 0
Declared = List (ℕ × Bool)

abbrev pub kind : Declared → ℕ → Kind
kind [] c = unknown
kind ((l, false) ∷ os) c = if l == c then flag else kind os c
kind ((l, true) ∷ os) c = if l == c then takes else kind os c

-- The letters of a word that holds options; "-" and "--" hold none.
abbrev pub letters_of : List ℕ → List ℕ
letters_of [] = []
letters_of (c0 ∷ []) = []
letters_of (c0 ∷ c1 ∷ []) = if c0 == b'-' then (if c1 == b'-' then [] else c1 ∷ []) else []
letters_of (c0 ∷ c1 ∷ c2 ∷ cs) = if c0 == b'-' then c1 ∷ c2 ∷ cs else []

abbrev pub Items : Type 0
Items = List (ℕ × List ℕ)

abbrev pub item : ℕ → List ℕ → Option Items → Option Items
item c arg none = none
item c arg (some items) = some ((c, arg) ∷ items)

-- The argument of the letter `c`: the other letters of its word, or the next word; where there is
-- none, `?`. `old` is the argument before.
unfoldable pub argument :
    ℕ → List ℕ → List (List ℕ) → List ℕ → (List (List ℕ) → List ℕ → Option Items) → Option Items
argument c (d ∷ cs) ws old next = item c (d ∷ cs) (next ws (d ∷ cs))
argument c [] (w ∷ ws) old next = item c w (next ws w)
argument c [] [] old next = item b'?' old (next [] old)

unfoldable pub letter_item :
    Kind
    → ℕ
    → List ℕ
    → List (List ℕ)
    → List ℕ
    → (List ℕ → List (List ℕ) → List ℕ → Option Items)
    → Option Items
unfolding argument
letter_item unknown c cs ws old next = item b'?' old (next cs ws old)
letter_item flag c cs ws old next = item c old (next cs ws old)
letter_item takes c cs ws old next = argument c cs ws old (next [])

-- The letters that begin a word, or the end.
unfoldable pub word_item :
    Declared
    → List ℕ
    → List (List ℕ)
    → List ℕ
    → (List ℕ → List (List ℕ) → List ℕ → Option Items)
    → Option Items
unfolding letter_item
word_item os [] ws old next = some []
word_item os (c ∷ cs) ws old next = letter_item (kind os c) c cs ws old next

-- The options in the letters that are left of a word and in the words behind it; each takes one
-- of the fuel.
unfoldable pub read : Declared → ℕ → List ℕ → List (List ℕ) → List ℕ → Option Items
unfolding word_item
read os zero cs ws old = none
read os (suc n) [] [] old = some []
read os (suc n) [] (w ∷ ws) old = word_item os (letters_of w) ws old (read os n)
read os (suc n) (c ∷ cs) ws old = word_item os (c ∷ cs) ws old (read os n)
