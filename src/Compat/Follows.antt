-- ===== src/Compat/Follows.antt =====
-- src/hev-compat.c: what `getopt` leaves to read behind a letter.
use natmap.Prelude.{
  ℕ, ◌+◌, ◌<◌, ◌≡◌, inl, inr, refl, ap, ap₂, sym, ◌∙◌, List, [], false, Bool-cases, Option, arith,
  ltb, leb, ◌==◌, if◌then◌else◌, length, All,
}
use natmap.Compat.{State, char_at, drop, word, turn_over, take_argument, take_letter}
use natmap.Compat.Ends.{IsText, char_at_end, word-IsText, IsWithin}
use natmap.Compat.Grammar.{
  Kind, unknown, flag, takes, Declared, kind, Items, item, argument, letter_item, word_item,
}
use natmap.Compat.Kinds.{optstring_of, AreLetters, by_kind, letter-kind}
use natmap.Compat.Words.{
  words_from, words_from-cons, words_from-nil, drop-cons, drop-nil, empty_word,
}

module _ (argv : List (List ℕ)) (texts : All IsText argv) where
  -- The letters that are left of the word, and the words behind it.
  abbrev pub letters : State → List ℕ
  letters s = if s.pos == 0 then [] else drop s.pos (word argv s.optind)

  abbrev pub behind : State → List (List ℕ)
  behind s = if s.pos == 0 then words_from argv s.optind else words_from argv (s.optind + 1)

  -- Behind a letter, at the next one or over to the next word.
  record Follows (s : State) (cs : List ℕ) (ws : List (List ℕ)) (old : List ℕ) : Type 0 where
    letters_left : letters s ≡ cs
    words_left : behind s ≡ ws
    argument_left : s.optarg ≡ old

  turn_over-Follows :
      (s : State)
      → IsWithin argv texts s
      → (s.pos ≡ 0 → word argv s.optind ≡ [])
      → Follows
          (turn_over argv s)
          (drop s.pos (word argv s.optind))
          (words_from argv (s.optind + 1))
          s.optarg
  unfolding turn_over
  turn_over-Follows s fits start =
      let w = word argv s.optind in
      let ends = char_at_end w s.pos (word-IsText argv s.optind texts) in
      elim (Bool-cases (leb (length w) s.pos)) [
        | inl over ↦
            let none_left = drop-nil w s.pos (ground arith) in
            rw (ends, over, turn_over)
              (record { letters_left = sym none_left; words_left = refl; argument_left = refl })
        | inr on ↦
            let inside : (s.pos == 0) ≡ false = not_start s start on in
            rw (ends, on, turn_over)
              (record {
                letters_left = rw inside refl;
                words_left = rw inside refl;
                argument_left = refl;
              })
      ]
    where
      not_start :
          (s' : State)
          → (s'.pos ≡ 0 → word argv s'.optind ≡ [])
          → leb (length (word argv s'.optind)) s'.pos ≡ false
          → (s'.pos == 0) ≡ false
      not_start s' empty short = elim (Bool-cases (s'.pos == 0)) [
        | inl zero_pos ↦
            let no_word = empty (ground arith) in let wrong = rw no_word at short in ground arith
        | inr later ↦ later
      ]

  module _ (f : List ℕ → List (List ℕ) → List ℕ → Option Items) where
    -- What follows is read from the state.
    abbrev pub onwards : State → Option Items
    onwards s = f (letters s) (behind s) s.optarg

    item-Follows :
        (c : ℕ) (s : State) (cs : List ℕ) (ws : List (List ℕ)) (old : List ℕ)
        → Follows s cs ws old
        → item c old (f cs ws old) ≡ item c s.optarg (onwards s)
    item-Follows c s cs ws old h = rw (h.letters_left, h.words_left, h.argument_left) refl

    -- The end of the word `optind`, with an argument.
    ended :
        (c i : ℕ) (arg : List ℕ)
        → let w = word argv i in
          let s : State = record { optind = i; pos = length w; optarg = arg } in
          item c arg (f [] (words_from argv (i + 1)) arg)
          ≡ item c (turn_over argv s).optarg (onwards (turn_over argv s))
    ended c i arg =
        let w = word argv i in
        let s : State = record { optind = i; pos = length w; optarg = arg } in
        let all = drop-nil w (length w) (omega arith) in
        item-Follows c (turn_over argv s) [] (words_from argv (i + 1)) arg
          (rw all at (turn_over-Follows s (omega arith) (empty_word w)))

    take_argument-item :
        (c : ℕ) (s : State)
        → IsWithin argv texts s
        → let (c', s') = take_argument argv c s in
          argument c
            (drop s.pos (word argv s.optind))
            (words_from argv (s.optind + 1))
            s.optarg
            (f [])
          ≡ item c' (turn_over argv s').optarg (onwards (turn_over argv s'))
    unfolding take_argument argument
    take_argument-item c s fits =
        let w = word argv s.optind in
        let i = s.optind + 1 in
        let ends = char_at_end w s.pos (word-IsText argv s.optind texts) in
        elim (Bool-cases (leb (length w) s.pos)) [
          | inl over ↦
              let none_left = drop-nil w s.pos (ground arith) in
              elim (Bool-cases (ltb i (length argv))) [
                | inl one ↦
                    let front = words_from-cons argv i (ground arith) in
                    rw (ends, over, one, take_argument)
                      (ap₂ (λ l ws. argument c l ws s.optarg (f [])) none_left front
                        ∙ ended c i (word argv i))
                | inr none_more ↦
                    let back = words_from-nil argv i (ground arith) in
                    rw (ends, over, none_more, take_argument)
                      (ap₂ (λ l ws. argument c l ws s.optarg (f [])) none_left back
                        ∙ (ap (λ ws. item b'?' s.optarg (f [] ws s.optarg)) (sym back)
                            ∙ ended b'?' s.optind s.optarg))
              ]
          | inr on ↦
              let more = drop-cons w s.pos (ground arith) in
              rw (ends, on, take_argument)
                (ap (λ l. argument c l (words_from argv i) s.optarg (f [])) more
                  ∙ (ap (λ l. item c l (f [] (words_from argv i) l)) (sym more)
                      ∙ ended c s.optind (drop s.pos w)))
        ]

    -- A letter of any kind.
    by_kind-item :
        (k : Kind) (c : ℕ) (s : State)
        → IsWithin argv texts s
        → 0 < s.pos
        → let (c', s') = by_kind argv k c s in
          letter_item k c
            (drop s.pos (word argv s.optind))
            (words_from argv (s.optind + 1))
            s.optarg
            f
          ≡ item c' (turn_over argv s').optarg (onwards (turn_over argv s'))
    unfolding letter_item
    by_kind-item unknown c s fits later =
        item-Follows b'?' (turn_over argv s) (drop s.pos (word argv s.optind))
          (words_from argv (s.optind + 1)) s.optarg
          (turn_over-Follows s fits (λ start. absurd (omega arith)))
    by_kind-item flag c s fits later =
        item-Follows c (turn_over argv s) (drop s.pos (word argv s.optind))
          (words_from argv (s.optind + 1)) s.optarg
          (turn_over-Follows s fits (λ start. absurd (omega arith)))
    by_kind-item takes c s fits later = take_argument-item c s fits

    -- The letter at `pos`.
    pub take_letter-item :
        (os : Declared) (s : State)
        → AreLetters os
        → s.pos < length (word argv s.optind)
        → let (c', s') = take_letter argv (optstring_of os) s in
          word_item os (drop s.pos (word argv s.optind)) (words_from argv (s.optind + 1)) s.optarg f
          ≡ item c' s'.optarg (onwards s')
    unfolding take_letter word_item
    take_letter-item os s h inside =
        let c = char_at (word argv s.optind) s.pos in
        let s1 : State = record s { pos = s.pos + 1 } in
        let ws = words_from argv (s.optind + 1) in
        let front = drop-cons (word argv s.optind) s.pos inside in
        ap (λ l. word_item os l ws s.optarg f) front
        ∙ (by_kind-item (kind os c) c s1 (omega arith) (omega arith)
            ∙ ap (λ r. item r.0 (turn_over argv r.1).optarg (onwards (turn_over argv r.1)))
                (sym (letter-kind argv os c s1 h)))
