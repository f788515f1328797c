-- ===== src/Compat/Ends.antt =====
-- src/hev-compat.c: the loop over the options ends.
use natmap.Prelude.{
  ℕ, zero, suc, ◌+◌, ◌-◌, ◌<◌, ◌≤◌, ◌≡◌, ◌≢◌, ◌⊎◌, inl, inr, refl, List, [], ◌∷◌, not, Bool-cases,
  Option, none, some, arith, ltb, leb, ◌==◌, length, All,
}
use natmap.Compat.{
  State, initial, char_at, strchr, word, at_end, is_dashes, turn_over, take_argument, letter,
  take_letter, getopt, options,
}

-- The characters of the words from an index on.
abbrev pub letters_from : List (List ℕ) → ℕ → ℕ
letters_from [] i = 0
letters_from (w ∷ ws) zero = length w + letters_from ws zero
letters_from (w ∷ ws) (suc i) = letters_from ws i

abbrev pub IsText : List ℕ → Type 0
IsText s = All (λ c. c ≢ 0) s

pub char_at_end : (s : List ℕ) (i : ℕ) → IsText s → (char_at s i == 0) ≡ leb (length s) i
char_at_end [] i h = ground arith
char_at_end (c ∷ s) zero (h, hs) = ground arith
char_at_end (c ∷ s) (suc i) (h, hs) = let ih = char_at_end s i hs in ground (arith, ih)

letters_from-suc :
    (argv : List (List ℕ)) (i : ℕ)
    → letters_from argv i ≡ length (word argv i) + letters_from argv (suc i)
letters_from-suc [] i = refl
letters_from-suc (w ∷ ws) zero = omega arith
letters_from-suc (w ∷ ws) (suc i) = letters_from-suc ws i

letters_from-word :
    (argv : List (List ℕ)) (i : ℕ)
    → letters_from argv i ≡ length (word argv i) + letters_from argv (i + 1)
letters_from-word argv i =
    let next : i + 1 ≡ suc i = omega arith in rw next (letters_from-suc argv i)

pub word-IsText : (argv : List (List ℕ)) (i : ℕ) → All IsText argv → IsText (word argv i)
word-IsText [] i h = tt
word-IsText (w ∷ ws) zero (h, hs) = h
word-IsText (w ∷ ws) (suc i) (h, hs) = word-IsText ws i hs

module _ (argv : List (List ℕ)) (texts : All IsText argv) where
  -- Between words, or at a letter.
  abbrev pub IsPlace : State → Type 0
  IsPlace s = (s.pos ≡ 0) ⊎ (s.pos < length (word argv s.optind))

  -- What is left to read.
  abbrev pub left : State → ℕ
  left s = letters_from argv s.optind - s.pos

  -- In a word or at its end.
  abbrev pub IsWithin : State → Type 0
  IsWithin s = s.pos ≤ length (word argv s.optind)

  turn_over-IsPlace :
      (s : State) (n : ℕ)
      → IsWithin s
      → left s ≤ n
      → IsPlace (turn_over argv s) × (left (turn_over argv s) ≤ n)
  unfolding turn_over
  turn_over-IsPlace s n fits few =
      let w = word argv s.optind in
      let ends = char_at_end w s.pos (word-IsText argv s.optind texts) in
      let more = letters_from-word argv s.optind in
      elim (Bool-cases (leb (length w) s.pos)) [
        | inl over ↦ rw (ends, over, turn_over) (inl refl, ground (arith, more))
        | inr on ↦ rw (ends, on, turn_over) (inr (ground arith), few)
      ]

  take_argument-IsWithin :
      (c : ℕ) (s : State) (n : ℕ)
      → IsWithin s
      → left s ≤ n
      → let s' = (take_argument argv c s).1 in IsWithin s' × (left s' ≤ n)
  unfolding take_argument
  take_argument-IsWithin c s n fits few =
      let w = word argv s.optind in
      let more = letters_from-word argv s.optind in
      elim (Bool-cases (not (char_at w s.pos == 0))) [
        | inl here ↦ rw (here, take_argument) (omega arith, omega arith)
        | inr behind ↦ elim (Bool-cases (ltb (s.optind + 1) (length argv))) [
          | inl next ↦ rw (behind, next, take_argument) (omega arith, omega (arith, more))
          | inr missing ↦ rw (behind, missing, take_argument) (omega arith, omega arith)
        ]
      ]

  letter-IsWithin :
      (c : ℕ) (r : Option (List ℕ)) (s : State) (n : ℕ)
      → IsWithin s
      → left s ≤ n
      → let s' = (letter argv c r s).1 in IsWithin s' × (left s' ≤ n)
  unfolding letter
  letter-IsWithin c none s n fits few = (fits, few)
  letter-IsWithin c (some rest) s n fits few = elim (Bool-cases (c == b':')) [
    | inl colon ↦ rw (colon, letter) (fits, few)
    | inr other ↦ elim (Bool-cases (char_at rest 0 == b':')) [
      | inl takes ↦ rw (other, takes, letter) (take_argument-IsWithin c s n fits few)
      | inr plain ↦ rw (other, plain, letter) (fits, few)
    ]
  ]

  module _ (optstring : List ℕ) where
    -- A letter was read and less is left.
    pub take_letter-IsPlace :
        (s : State)
        → s.pos < length (word argv s.optind)
        → let s' = (take_letter argv optstring s).1 in IsPlace s' × (left s' < left s)
    unfolding take_letter
    take_letter-IsPlace s inside =
        let c = char_at (word argv s.optind) s.pos in
        let s1 : State = record s { pos = s.pos + 1 } in
        let more = letters_from-word argv s.optind in
        let (fits, few) =
          letter-IsWithin c (strchr optstring c) s1 (left s - 1) (omega arith) (omega arith) in
        let (place, less) =
          turn_over-IsPlace (letter argv c (strchr optstring c) s1).1 (left s - 1) fits few in
        (place, omega (arith, less, more))

    -- A call gives -1, or a letter, and then less is left.
    Advances : State → Type 0
    Advances s =
        let (r, s') = getopt argv optstring s in
        (r ≡ none) ⊎ ((c : ℕ) × (r ≡ some c) × IsPlace s' × (left s' < left s))

    getopt-Advances : (s : State) → IsPlace s → Advances s
    unfolding getopt Advances
    getopt-Advances s place =
        let w = word argv s.optind in
        let first : State = record s { pos = 1 } in
        let second = char_at_end w 1 (word-IsText argv s.optind texts) in
        elim (Bool-cases (not (s.pos == 0))) [
          | inl within ↦
              let (kept, less) = take_letter-IsPlace s (inside place (ground arith)) in
              rw (within, getopt) (inr (_, refl, kept, less))
          | inr between ↦ elim (Bool-cases (at_end argv s.optind)) [
            | inl over ↦ rw (between, over, getopt) (inl refl)
            | inr on ↦ elim (Bool-cases (is_dashes argv w)) [
              | inl dashes ↦ rw (between, on, dashes, getopt) (inl refl)
              | inr option ↦
                  let long : 1 < length w = ground (arith, second) in
                  let (kept, less) = take_letter-IsPlace first long in
                  let start : s.pos ≡ 0 = ground arith in
                  let fewer : left (take_letter argv optstring first).1 < left s =
                    omega (arith, less, start) in
                  rw (between, on, option, getopt) (inr (_, refl, kept, fewer))
            ]
          ]
        ]
      where
        inside : IsPlace s → s.pos ≢ 0 → s.pos < length (word argv s.optind)
        inside (inl start) h = absurd (h start)
        inside (inr more) h = more

    options_end :
        (n : ℕ) (s : State)
        → IsPlace s
        → left s < n
        → (items : List (ℕ × List ℕ)) × (options argv optstring n s ≡ some items)
    unfolding options Advances
    options_end zero s place enough = absurd (omega arith)
    options_end (suc n) s place enough = elim (getopt-Advances s place) [
      | inl over ↦ ([], rw (over, options) refl)
      | inr (c, yes_c, place', less) ↦
          let s' = (getopt argv optstring s).1 in
          let (items, rest) = options_end n s' place' (omega (arith, less)) in
          ((c, s'.optarg) ∷ items, rw (yes_c, rest, options) refl)
    ]

-- For words without a zero inside: from the start of the command line, the loop over the options
-- ends with as much fuel as the words behind the first have characters, and one more.
pub options-some :
    (argv : List (List ℕ)) (optstring : List ℕ)
    → All IsText argv
    → (items : List (ℕ × List ℕ)) × (options argv optstring (suc (letters_from argv 1)) initial
        ≡ some items)
options-some argv optstring texts =
    options_end argv texts optstring (suc (letters_from argv 1)) initial (inl refl) (omega arith)
