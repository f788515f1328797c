-- ===== src/Compat/Words.antt =====
-- src/hev-compat.c: the words of a command line and their letters.
use natmap.Prelude.{
  ℕ, zero, suc, ◌+◌, ◌<◌, ◌≤◌, ◌≡◌, refl, List, [], ◌∷◌, true, false, not, ◌||◌, arith, ◌==◌,
  length,
}
use natmap.Compat.{char_at, drop, word, is_dashes}
use natmap.Compat.Ends.{IsText}
use natmap.Compat.Grammar.{letters_of}

-- The words from an index on.
abbrev pub words_from : List (List ℕ) → ℕ → List (List ℕ)
words_from ws zero = ws
words_from [] (suc i) = []
words_from (w ∷ ws) (suc i) = words_from ws i

words_from-suc :
    (argv : List (List ℕ)) (i : ℕ)
    → i < length argv
    → words_from argv i ≡ word argv i ∷ words_from argv (suc i)
words_from-suc [] i h = absurd (omega arith)
words_from-suc (w ∷ ws) zero h = refl
words_from-suc (w ∷ ws) (suc i) h = words_from-suc ws i (omega arith)

pub words_from-cons :
    (argv : List (List ℕ)) (i : ℕ)
    → i < length argv
    → words_from argv i ≡ word argv i ∷ words_from argv (i + 1)
words_from-cons argv i h =
    let next : i + 1 ≡ suc i = omega arith in rw next (words_from-suc argv i h)

pub words_from-nil : (argv : List (List ℕ)) (i : ℕ) → length argv ≤ i → words_from argv i ≡ []
words_from-nil [] zero h = refl
words_from-nil [] (suc i) h = refl
words_from-nil (w ∷ ws) zero h = absurd (omega arith)
words_from-nil (w ∷ ws) (suc i) h = words_from-nil ws i (omega arith)

drop-suc : (s : List ℕ) (i : ℕ) → i < length s → drop i s ≡ char_at s i ∷ drop (suc i) s
drop-suc [] i h = absurd (omega arith)
drop-suc (c ∷ s) zero h = refl
drop-suc (c ∷ s) (suc i) h = drop-suc s i (omega arith)

pub drop-cons : (s : List ℕ) (i : ℕ) → i < length s → drop i s ≡ char_at s i ∷ drop (i + 1) s
drop-cons s i h = let next : i + 1 ≡ suc i = omega arith in rw next (drop-suc s i h)

pub drop-nil : (s : List ℕ) (i : ℕ) → length s ≤ i → drop i s ≡ []
drop-nil [] zero h = refl
drop-nil [] (suc i) h = refl
drop-nil (c ∷ s) zero h = absurd (omega arith)
drop-nil (c ∷ s) (suc i) h = drop-nil s i (omega arith)

-- How a word begins: with options, or with none.
pub letters_of-word :
    (argv : List (List ℕ)) (w : List ℕ)
    → IsText w
    → ((not (char_at w 0 == b'-') || char_at w 1 == 0) ≡ true → letters_of w ≡ [])
      × (is_dashes argv w ≡ true → letters_of w ≡ [])
      × ((not (char_at w 0 == b'-') || char_at w 1 == 0) ≡ false
          → is_dashes argv w ≡ false
          → (letters_of w ≡ drop 1 w) × (1 < length w))
letters_of-word argv [] h = (λ _. refl, λ _. refl, λ e _. ground arith)
letters_of-word argv (c0 ∷ []) h = (λ _. refl, λ _. refl, λ e _. ground arith)
letters_of-word argv (c0 ∷ c1 ∷ []) h = (λ e. ground arith, λ e. ground arith, λ e d. ground arith)
letters_of-word argv (c0 ∷ c1 ∷ c2 ∷ cs) h =
    (λ e. ground arith, λ e. ground arith, λ e d. ground arith)

pub empty_word : (s : List ℕ) → length s ≡ 0 → s ≡ []
empty_word [] h = refl
empty_word (c ∷ s) h = absurd (omega arith)
