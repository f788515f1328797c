-- ===== src/Compat/Kinds.antt =====
-- src/hev-compat.c: what `strchr` finds in a string of options.
use natmap.Prelude.{
  ℕ, ◌≡◌, ◌≢◌, inl, inr, refl, ◌∙◌, List, [], ◌∷◌, true, false, Bool-cases, Option, none, some,
  arith, ◌==◌, All,
}
use natmap.Compat.{State, char_at, strchr, take_argument, letter}
use natmap.Compat.Grammar.{Kind, unknown, flag, takes, Declared, kind}

-- The string of the options.
abbrev pub optstring_of : Declared → List ℕ
optstring_of [] = []
optstring_of ((l, false) ∷ os) = l ∷ optstring_of os
optstring_of ((l, true) ∷ os) = l ∷ b':' ∷ optstring_of os

abbrev pub AreLetters : Declared → Type 0
AreLetters os = All (λ o. o.0 ≢ b':') os

kind_colon : (os : Declared) → AreLetters os → kind os b':' ≡ unknown
kind_colon [] h = refl
kind_colon ((l, false) ∷ os) h = ground (arith, kind_colon os h.1)
kind_colon ((l, true) ∷ os) h = ground (arith, kind_colon os h.1)

no_colon_ahead : (os : Declared) → AreLetters os → (char_at (optstring_of os) 0 == b':') ≡ false
no_colon_ahead [] h = refl
no_colon_ahead ((l, false) ∷ os) h = ground arith
no_colon_ahead ((l, true) ∷ os) h = ground arith

module _ (argv : List (List ℕ)) where
  -- What becomes of a letter of each kind.
  abbrev pub by_kind : Kind → ℕ → State → ℕ × State
  by_kind unknown c s = (b'?', s)
  by_kind flag c s = (c, s)
  by_kind takes c s = take_argument argv c s

  letter_other :
      (os : Declared) (c : ℕ) (s : State)
      → AreLetters os
      → (c == b':') ≡ false
      → letter argv c (strchr (optstring_of os) c) s ≡ by_kind (kind os c) c s
  unfolding letter strchr
  letter_other [] c s h other = refl
  letter_other ((l, false) ∷ os) c s h other =
      let ahead = no_colon_ahead os h.1 in
      elim (Bool-cases (l == c)) [
        | inl here ↦ rw (here, other, ahead) refl
        | inr further ↦ rw further (letter_other os c s h.1 other)
      ]
  letter_other ((l, true) ∷ os) c s h other = elim (Bool-cases (l == c)) [
    | inl here ↦ rw (here, other) refl
    | inr further ↦
        let colon : (b':' == c) ≡ false = ground arith in
        rw (further, colon) (letter_other os c s h.1 other)
  ]

  letter_colon : (r : Option (List ℕ)) (s : State) → letter argv b':' r s ≡ (b'?', s)
  unfolding letter
  letter_colon none s = refl
  letter_colon (some rest) s = refl

  pub letter-kind :
      (os : Declared) (c : ℕ) (s : State)
      → AreLetters os
      → letter argv c (strchr (optstring_of os) c) s ≡ by_kind (kind os c) c s
  letter-kind os c s h = elim (Bool-cases (c == b':')) [
    | inl colon ↦
        let same : c ≡ b':' = ground arith in
        rw same (letter_colon (strchr (optstring_of os) b':') s ∙ rw (kind_colon os h) refl)
    | inr other ↦ letter_other os c s h other
  ]
