-- ===== src/Compat/Reading.antt =====
-- src/hev-compat.c: `getopt` finds the options that the command line holds.
use natmap.Prelude.{
  ℕ, zero, suc, ◌+◌, ◌<◌, ◌≡◌, inl, inr, refl, ap, sym, ◌∙◌, List, [], ◌∷◌, true, false, Bool-cases,
  Option, none, some, arith, leb, ◌==◌, length, All,
}
use natmap.Compat.{
  State, initial, drop, word, at_end, is_dashes, take_letter, getopt, options, with_rest,
}
use natmap.Compat.Ends.{
  letters_from, options-some, IsText, word-IsText, IsPlace, take_letter-IsPlace,
}
use natmap.Compat.Grammar.{Declared, letters_of, Items, item, word_item, read}
use natmap.Compat.Kinds.{optstring_of, AreLetters}
use natmap.Compat.Words.{words_from, words_from-cons, words_from-nil, drop-cons, letters_of-word}
use natmap.Compat.Follows.{letters, behind, take_letter-item}

module _ (argv : List (List ℕ)) (texts : All IsText argv) where
  module _ (os : Declared) (are : AreLetters os) where
    abbrev reads : ℕ → State → Option Items
    reads n s = read os n (letters argv texts s) (behind argv texts s) s.optarg

    same_item :
        (c : ℕ) (arg : List ℕ) (rest : Option Items)
        → with_rest argv (optstring_of os) (some c) arg rest ≡ item c arg rest
    same_item c arg none = refl
    same_item c arg (some items) = refl

    -- What the loop does with a letter.
    options-item :
        (n : ℕ) (s : State) (r : ℕ × State)
        → getopt argv (optstring_of os) s ≡ (some r.0, r.1)
        → options argv (optstring_of os) (suc n) s
          ≡ item r.0 r.1.optarg (options argv (optstring_of os) n r.1)
    unfolding options
    options-item n s r e = rw (e, options) (same_item r.0 r.1.optarg _)

    letter-read :
        (n : ℕ) (s : State)
        → s.pos < length (word argv s.optind)
        → ((s' : State) → IsPlace argv texts s' → options argv (optstring_of os) n s' ≡ reads n s')
        → let (c, s') = take_letter argv (optstring_of os) s in
          item c s'.optarg (options argv (optstring_of os) n s')
          ≡ word_item os
              (drop s.pos (word argv s.optind))
              (words_from argv (s.optind + 1))
              s.optarg
              (read os n)
    letter-read n s inside ih =
        let (c, s') = take_letter argv (optstring_of os) s in
        let (place, less) = take_letter-IsPlace argv texts (optstring_of os) s inside in
        ap (item c s'.optarg) (ih s' place)
        ∙ sym (take_letter-item argv texts (read os n) os s are inside)

    -- Within a word.
    within-read :
        (n : ℕ) (s : State)
        → (s.pos == 0) ≡ false
        → s.pos < length (word argv s.optind)
        → ((s' : State) → IsPlace argv texts s' → options argv (optstring_of os) n s' ≡ reads n s')
        → options argv (optstring_of os) (suc n) s ≡ reads (suc n) s
    unfolding getopt read
    within-read n s later inside ih =
        let front = drop-cons (word argv s.optind) s.pos inside in
        let ws = words_from argv (s.optind + 1) in
        options-item n s (take_letter argv (optstring_of os) s) (rw (later, getopt) refl)
        ∙ (letter-read n s inside ih
            ∙ rw later
                (ap (λ l. word_item os l ws s.optarg (read os n)) front ∙ sym (rw front refl)))

    -- Over the words behind the last letter.
    finish :
        (n : ℕ) (w : List ℕ) (ws : List (List ℕ)) (old : List ℕ)
        → letters_of w ≡ []
        → read os (suc n) [] (w ∷ ws) old ≡ some []
    unfolding read word_item
    finish n w ws old none_there = ap (λ l. word_item os l ws old (read os n)) none_there

    -- No word is left, or the word holds no option.
    stopped :
        (n : ℕ) (s : State)
        → (s.pos == 0) ≡ true
        → at_end argv s.optind ≡ true
        → reads (suc n) s ≡ some []
    unfolding read
    stopped n s start over = elim (Bool-cases (leb (length argv) s.optind)) [
      | inl last ↦
          let nothing = words_from-nil argv s.optind (ground arith) in rw start (rw nothing refl)
      | inr before ↦
          let front = words_from-cons argv s.optind (ground arith) in
          let text = word-IsText argv s.optind texts in
          let plain = (letters_of-word argv (word argv s.optind) text).0 (ground arith) in
          rw start (
            rw front
              (finish n (word argv s.optind) (words_from argv (s.optind + 1)) s.optarg plain))
    ]

    start-read :
        (n : ℕ) (s : State)
        → (s.pos == 0) ≡ true
        → ((s' : State) → IsPlace argv texts s' → options argv (optstring_of os) n s' ≡ reads n s')
        → options argv (optstring_of os) (suc n) s ≡ reads (suc n) s
    unfolding getopt options read
    start-read n s start ih =
        let w = word argv s.optind in
        let text = word-IsText argv s.optind texts in
        let (plain, dashes, letters_there) = letters_of-word argv w text in
        elim (Bool-cases (at_end argv s.optind)) [
          | inl over ↦
              rw (start, over, getopt, options) (sym (rw start at (stopped n s start over)))
          | inr on ↦
              let front = words_from-cons argv s.optind (ground arith) in
              let ws = words_from argv (s.optind + 1) in
              elim (Bool-cases (is_dashes argv w)) [
                | inl two ↦
                    rw (start, on, two, getopt, options)
                      (sym (rw front (finish n w ws s.optarg (dashes two))))
                | inr option ↦
                    let (behind_dash, long) = letters_there (ground arith) option in
                    let first : State = record s { pos = 1 } in
                    options-item n s (take_letter argv (optstring_of os) first)
                      (rw (start, on, option, getopt) refl)
                    ∙ (letter-read n first long ih
                        ∙ rw start (
                            rw front
                              (ap (λ l. word_item os l ws s.optarg (read os n)) (sym behind_dash))))
              ]
        ]

    inside :
        (s : State)
        → (s.pos == 0) ≡ false
        → IsPlace argv texts s
        → s.pos < length (word argv s.optind)
    inside s later (inl start) = ground arith
    inside s later (inr more) = more

    place-read :
        (n : ℕ) (s : State) → IsPlace argv texts s → options argv (optstring_of os) n s ≡ reads n s
    unfolding options read
    place-read zero s place = refl
    place-read (suc n) s place = elim (Bool-cases (s.pos == 0)) [
      | inl start ↦ start-read n s start (λ s' p. place-read n s' p)
      | inr later ↦ within-read n s later (inside s later place) (λ s' p. place-read n s' p)
    ]

-- For words without a zero inside and declared options of which none is a colon: from the start of
-- the command line, the loop over `getopt` sees options and their arguments, and they are those
-- that the reference reads in the words behind the first; both end with as much fuel as these
-- words have characters, and one more.
pub options-read :
    (argv : List (List ℕ)) (os : Declared)
    → All IsText argv
    → AreLetters os
    → let n = suc (letters_from argv 1) in
      (items : Items) × (options argv (optstring_of os) n initial ≡ some items)
      × (read os n [] (words_from argv 1) [] ≡ some items)
options-read argv os texts are =
    let n = suc (letters_from argv 1) in
    let (items, ends) = options-some argv (optstring_of os) texts in
    (items, ends, sym (place-read argv texts os are n initial (inl refl)) ∙ ends)
