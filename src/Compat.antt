-- ===== src/Compat.antt =====
-- src/hev-compat.c: `getopt` for Windows, and the loop of `hev_conf_init` that calls it.
pub mod Ends
pub mod Grammar
pub mod Kinds
pub mod Words
pub mod Follows
pub mod Reading
pub mod Printed
mod Tests
use natmap.Prelude.{
  ℕ, zero, suc, ◌+◌, List, [], ◌∷◌, Bool, true, false, not, ◌&&◌, ◌||◌, Option, none, some, ltb,
  leb, ◌==◌, if◌then◌else◌, length, get_or,
}

-- `optind`, the static `pos`, and `optarg`.
pub record State : Type 0 where
  pub optind : ℕ
  pub pos : ℕ
  pub optarg : List ℕ

abbrev pub initial : State
initial = record { optind = 1; pos = 0; optarg = [] }

-- A text's character, the final zero behind it.
abbrev pub char_at : List ℕ → ℕ → ℕ
char_at s i = get_or s i 0

abbrev pub drop : ℕ → List ℕ → List ℕ
drop zero s = s
drop (suc n) [] = []
drop (suc n) (c ∷ s) = drop n s

-- `strchr`, with what stands behind the character.
pub strchr : List ℕ → ℕ → Option (List ℕ)
strchr [] c = none
strchr (x ∷ s) c = let rest = strchr s c in if x == c then some s else rest

module _ (argv : List (List ℕ)) where
  abbrev pub word : ℕ → List ℕ
  word i = get_or argv i []

  -- No more options here.
  abbrev pub at_end : ℕ → Bool
  at_end i = leb (length argv) i || not (char_at (word i) 0 == b'-') || char_at (word i) 1 == 0

  -- "--"
  abbrev pub is_dashes : List ℕ → Bool
  is_dashes s = char_at s 0 == b'-' && char_at s 1 == b'-' && char_at s 2 == 0

  -- Over to the next word behind the last letter.
  pub turn_over : State → State
  turn_over s =
      if char_at (word s.optind) s.pos == 0 then record s { optind = s.optind + 1; pos = 0 } else s

  -- The argument of the letter `c`: the rest of the word, or the next word, or none.
  pub take_argument : ℕ → State → ℕ × State
  take_argument c s =
      if not (char_at (word s.optind) s.pos == 0)
      then (c, record s { optarg = drop s.pos (word s.optind); pos = length (word s.optind) })
      else if ltb (s.optind + 1) (length argv)
      then (
        c,
        record {
          optind = s.optind + 1;
          optarg = word (s.optind + 1);
          pos = length (word (s.optind + 1));
        },
      )
      else (b'?', record s { pos = length (word s.optind) })

  -- A letter, and what `strchr` finds behind it in the string of the options.
  pub letter : ℕ → Option (List ℕ) → State → ℕ × State
  unfolding take_argument
  letter c none s = (b'?', s)
  letter c (some rest) s =
      if c == b':' then (b'?', s) else if char_at rest 0 == b':' then take_argument c s else (c, s)

  module _ (optstring : List ℕ) where
    -- The letter at `pos`.
    pub take_letter : State → ℕ × State
    unfolding letter strchr turn_over
    take_letter s =
        let c = char_at (word s.optind) s.pos in
        let (c', s') = letter c (strchr optstring c) (record s { pos = s.pos + 1 }) in
        (c', turn_over s')

    abbrev pub some_letter : ℕ × State → Option ℕ × State
    some_letter (c, s) = (some c, s)

    -- Null for -1.
    pub getopt : State → Option ℕ × State
    unfolding take_letter
    getopt s =
        if not (s.pos == 0)
        then some_letter (take_letter s)
        else if at_end s.optind
        then (none, s)
        else if is_dashes (word s.optind)
        then (none, record s { optind = s.optind + 1 })
        else some_letter (take_letter (record s { pos = 1 }))

    -- In front of the options behind it.
    abbrev pub with_rest :
        Option ℕ → List ℕ → Option (List (ℕ × List ℕ)) → Option (List (ℕ × List ℕ))
    with_rest none arg rest = some []
    with_rest (some c) arg none = none
    with_rest (some c) arg (some items) = some ((c, arg) ∷ items)

    -- The options that the loop sees, each with its argument; null where the fuel is used up.
    pub options : ℕ → State → Option (List (ℕ × List ℕ))
    unfolding getopt
    options zero s = none
    options (suc fuel) s =
        let (c, s') = getopt s in let rest = options fuel s' in with_rest c s'.optarg rest
