-- ===== src/Tnsk/Rounds.antt =====
-- src/hev-tnsk.c: when the keeper gives a connection up.
use natmap.Prelude.{ℕ, suc, ◌≡◌, refl, Bool, true, false, List, [], ◌∷◌, arith}
use natmap.Prelude.Int.{ℤ, pos, is_nonpos}
use natmap.Tnsk.{
  Answer, running, returned, sending, receiving, Outcome, request, timed_out, keep_alive_loop,
  tnsk_keep_alive,
}

-- A round as the server makes it: the request goes out, some data comes, then nothing until the
-- timeout.
abbrev fine : ℕ → Answer
fine n = record { res = pos (suc n); killed = false }

abbrev silence : Answer
silence = record { res = timed_out; killed = false }

abbrev pub data_then : List ℕ → List Answer → List Answer
data_then [] rest = silence ∷ rest
data_then (n ∷ sizes) rest = fine n ∷ data_then sizes rest

-- Each round is the list of the sizes that `recv` returns, less one.
abbrev pub rounds : List (List ℕ) → List Answer
rounds [] = []
rounds (sizes ∷ rest) = fine 0 ∷ data_then sizes (rounds rest)

abbrev pub all_answered : List (List ℕ) → Bool
all_answered [] = true
all_answered ([] ∷ rest) = false
all_answered ((n ∷ sizes) ∷ rest) = all_answered rest

-- The rounds up to the first without data, that one included.
abbrev pub made : List (List ℕ) → List (List ℕ)
made [] = []
made ([] ∷ rest) = [] ∷ []
made ((n ∷ sizes) ∷ rest) = (n ∷ sizes) ∷ made rest

-- The first round may stay without data, no later one.
abbrev pub is_kept : List (List ℕ) → Bool
is_kept [] = true
is_kept (sizes ∷ rest) = all_answered rest

abbrev pub all_made : List (List ℕ) → List (List ℕ)
all_made [] = []
all_made (sizes ∷ rest) = sizes ∷ made rest

abbrev pub alive : Outcome → Bool
alive o = elim o.status [ running ↦ true | returned ↦ false ]

-- As many requests as rounds.
abbrev pub requests_for : List ℕ → List (List ℕ) → List (List ℕ)
requests_for r [] = []
requests_for r (sizes ∷ rest) = r ∷ requests_for r rest

module _ (http : List ℕ) (keep : ℤ) (positive : is_nonpos keep ≡ false) where
  -- Behind some data, silence leads to the next request.
  data_then-sending :
      (sizes : List ℕ) (rest : List Answer)
      → keep_alive_loop http keep receiving 0 keep (data_then sizes rest)
        ≡ keep_alive_loop http keep sending 1 keep rest
  unfolding keep_alive_loop
  data_then-sending [] rest = ground arith
  data_then-sending (n ∷ sizes) rest = ground (arith, data_then-sending sizes rest)

  -- A round that begins behind a missed one.
  rounds-alive :
      (rs : List (List ℕ))
      → let o = keep_alive_loop http keep sending 1 keep (rounds rs) in
        (alive o ≡ all_answered rs) × (o.requests ≡ requests_for (request http) (made rs))
  unfolding keep_alive_loop
  rounds-alive [] = (refl, refl)
  rounds-alive ([] ∷ rest) = (ground arith, ground arith)
  rounds-alive ((n ∷ sizes) ∷ rest) =
      let step = data_then-sending sizes (rounds rest) in
      let ih = rounds-alive rest in (ground (arith, step, ih), ground (arith, step, ih))

  -- With a positive interval and no kill, over rounds in which the server answers each request with
  -- some chunks of data or none: the connection is given up exactly when a round other than the
  -- first stays without data; and one request goes out in each round up to that one, the HEAD request
  -- for the host that was given.
  pub tnsk_keep_alive-rounds :
      (rs : List (List ℕ))
      → let o = tnsk_keep_alive http keep (rounds rs) in
        (alive o ≡ is_kept rs) × (o.requests ≡ requests_for (request http) (all_made rs))
  unfolding tnsk_keep_alive keep_alive_loop
  tnsk_keep_alive-rounds [] = (refl, refl)
  tnsk_keep_alive-rounds (sizes ∷ rest) =
      let step = data_then-sending sizes (rounds rest) in
      let later = rounds-alive rest in (ground (arith, step, later), ground (arith, step, later))

module _ (http : List ℕ) (keep : ℤ) where
  killed-silent :
      (miss : ℕ) (answers : List Answer)
      → (keep_alive_loop http keep receiving miss (pos 0) answers).requests ≡ []
  unfolding keep_alive_loop
  killed-silent miss [] = refl
  killed-silent miss (a ∷ answers) = ground (arith, killed-silent 0 answers)

  -- Once the keeper is killed while it waits for data, it sends no further request, whatever the
  -- server still answers and in whatever state the count of misses was.
  pub keep_alive_loop-killed :
      (miss : ℕ) (timeout : ℤ) (a : Answer) (answers : List Answer)
      → a.killed ≡ true
      → (keep_alive_loop http keep receiving miss timeout (a ∷ answers)).requests ≡ []
  unfolding keep_alive_loop
  keep_alive_loop-killed miss timeout a answers h = ground (arith, killed-silent 0 answers)
