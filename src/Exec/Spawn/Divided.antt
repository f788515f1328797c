-- ===== src/Exec/Spawn/Divided.antt =====
-- src/hev-exec.c: the script on Windows is given the arguments that it is given elsewhere.
use natmap.Prelude.{
  ℕ, ◌≡◌, ◌≢◌, ◌<◌, refl, ap, ◌∙◌, List, [], ◌∷◌, ◌++◌, arith, ◌==◌, if◌then◌else◌, length, All,
}
use natmap.Exec.{Arguments}
use natmap.Exec.Spawn.{quoted, command_line}

-- A line is divided at the spaces, with what stands before the first.
abbrev pub push : ℕ → List (List ℕ) → List (List ℕ)
push c [] = (c ∷ []) ∷ []
push c (w ∷ ws) = (c ∷ w) ∷ ws

abbrev pub split : List ℕ → List (List ℕ)
split [] = [] ∷ []
split (c ∷ s) = let rest = split s in if c == 32 then [] ∷ rest else push c rest

-- The words of a line, where more spaces than one divide as one does; `""` is an empty word.
abbrev pub unquoted : List ℕ → List (List ℕ) → List (List ℕ)
unquoted [] ws = ws
unquoted (c0 ∷ []) ws = (c0 ∷ []) ∷ ws
unquoted (c0 ∷ c1 ∷ s) ws = if c0 == b'"' then s ∷ ws else (c0 ∷ c1 ∷ s) ∷ ws

abbrev pub words_in : List (List ℕ) → List (List ℕ)
words_in [] = []
words_in (w ∷ ws) = let rest = words_in ws in unquoted w rest

-- Behind a name in quotes, up to the next quote.
abbrev pub after_name : List ℕ → List ℕ × List ℕ
after_name [] = ([], [])
after_name (c ∷ s) =
    let (name, rest) = after_name s in if c == b'"' then ([], s) else (c ∷ name, rest)

-- How a program finds its name and its arguments in the line that it was started by.
abbrev pub divide : List ℕ → List (List ℕ)
divide [] = []
divide (c ∷ s) = let (name, rest) = after_name s in name ∷ words_in (split rest)

-- A word without spaces or quotes.
abbrev pub IsWord : List ℕ → Type 0
IsWord w = All (λ c. (c ≢ 32) × (c ≢ b'"')) w

after_name-quote :
    (path rest : List ℕ)
    → All (λ c. c ≢ b'"') path
    → after_name (path ++ b'"' ∷ rest) ≡ (path, rest)
after_name-quote [] rest h = refl
after_name-quote (c ∷ path) rest (h, hs) =
    let ih = after_name-quote path rest hs in rw ih (ground arith)

split-space : (w rest : List ℕ) → All (λ c. c ≢ 32) w → split (w ++ 32 ∷ rest) ≡ w ∷ split rest
split-space [] rest h = refl
split-space (c ∷ w) rest (h, hs) = let ih = split-space w rest hs in rw ih (ground arith)

split_last : (w : List ℕ) → All (λ c. c ≢ 32) w → split w ≡ w ∷ []
split_last [] h = refl
split_last (c ∷ w) (h, hs) = let ih = split_last w hs in rw ih (ground arith)

unspaced : (w : List ℕ) → IsWord w → All (λ c. c ≢ 32) w
unspaced [] h = tt
unspaced (c ∷ w) (h, hs) = (h.0, unspaced w hs)

quoted_unspaced : (w : List ℕ) → IsWord w → All (λ c. c ≢ 32) (quoted w)
quoted_unspaced [] h = omega arith
quoted_unspaced (c ∷ w) h = unspaced (c ∷ w) h

unquoted-word : (w : List ℕ) (ws : List (List ℕ)) → IsWord w → 0 < length w → unquoted w ws ≡ w ∷ ws
unquoted-word [] ws h there = absurd (omega arith)
unquoted-word (c0 ∷ []) ws h there = refl
unquoted-word (c0 ∷ c1 ∷ s) ws h there = ground arith

unquoted-quoted : (w : List ℕ) (ws : List (List ℕ)) → IsWord w → unquoted (quoted w) ws ≡ w ∷ ws
unquoted-quoted [] ws h = refl
unquoted-quoted (c ∷ w) ws h = unquoted-word (c ∷ w) ws h (omega arith)

-- The six arguments are words, and only `ip4p` may be empty.
pub record AreWords (a : Arguments) : Type 0 where
  pub oaddr : IsWord a.oaddr × (0 < length a.oaddr)
  pub oport : IsWord a.oport × (0 < length a.oport)
  pub ip4p : IsWord a.ip4p
  pub iport : IsWord a.iport × (0 < length a.iport)
  pub mode : IsWord a.mode × (0 < length a.mode)
  pub iaddr : IsWord a.iaddr × (0 < length a.iaddr)

words_in-command_line :
    (a : Arguments)
    → AreWords a
    → words_in (a.oaddr ∷ a.oport ∷ quoted a.ip4p ∷ a.iport ∷ a.mode ∷ a.iaddr ∷ [])
      ≡ a.oaddr ∷ a.oport ∷ a.ip4p ∷ a.iport ∷ a.mode ∷ a.iaddr ∷ []
words_in-command_line a h =
    rw
      (
        unquoted-word a.iaddr [] h.iaddr.0 h.iaddr.1,
        unquoted-word a.mode (a.iaddr ∷ []) h.mode.0 h.mode.1,
        unquoted-word a.iport (a.mode ∷ a.iaddr ∷ []) h.iport.0 h.iport.1,
        unquoted-quoted a.ip4p (a.iport ∷ a.mode ∷ a.iaddr ∷ []) h.ip4p,
        unquoted-word a.oport (a.ip4p ∷ a.iport ∷ a.mode ∷ a.iaddr ∷ []) h.oport.0 h.oport.1,
        unquoted-word a.oaddr (a.oport ∷ a.ip4p ∷ a.iport ∷ a.mode ∷ a.iaddr ∷ []) h.oaddr.0
            h.oaddr.1,
      )
      refl

pub divide-command_line :
    (path : List ℕ) (a : Arguments)
    → All (λ c. c ≢ b'"') path
    → AreWords a
    → divide (command_line path a)
      ≡ path ∷ a.oaddr ∷ a.oport ∷ a.ip4p ∷ a.iport ∷ a.mode ∷ a.iaddr ∷ []
unfolding command_line
divide-command_line path a p h = rw (after_name-quote path _ p) (
    ap (λ ws. path ∷ words_in ([] ∷ ws))
      (split-space a.oaddr _ (unspaced a.oaddr h.oaddr.0)
        ∙ ap (λ ws. a.oaddr ∷ ws)
            (split-space a.oport _ (unspaced a.oport h.oport.0)
              ∙ ap (λ ws. a.oport ∷ ws)
                  (split-space (quoted a.ip4p) _ (quoted_unspaced a.ip4p h.ip4p)
                    ∙ ap (λ ws. quoted a.ip4p ∷ ws)
                        (split-space a.iport _ (unspaced a.iport h.iport.0)
                          ∙ ap (λ ws. a.iport ∷ ws)
                              (split-space a.mode _ (unspaced a.mode h.mode.0)
                                ∙ ap (λ ws. a.mode ∷ ws)
                                    (split_last a.iaddr (unspaced a.iaddr h.iaddr.0)))))))
    ∙ ap (λ ws. path ∷ ws) (words_in-command_line a h))
