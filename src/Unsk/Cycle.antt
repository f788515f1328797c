-- ===== src/Unsk/Cycle.antt =====
-- src/hev-unsk.c: how often the mapping is checked.
use natmap.Prelude.{
  ℕ, zero, suc, ◌+◌, ◌%◌, ◌≤◌, ◌<◌, ◌≡◌, refl, sym, ap, ◌∙◌, true, false, List, [], ◌∷◌, arith, leb,
  ◌==◌, if◌then◌else◌, length, Bool-cases, inl, inr,
}
use natmap.Prelude.Int.{ℤ, pos, negsuc, is_nonpos}
use native.Mathlib.Nat.{zero-mod}
use natmap.Prelude.Modulo.{wrap, along}
use natmap.Unsk.{Round, Action, stun, packet, running, returned, keep_alive_loop, unsk_keep_alive}

-- A round without a kill: the interval passes, the forwarder is up, the packet is sent.
abbrev pub quiet : ℤ → ℤ → Round
quiet fd res = record { slept = pos 0; fd = fd; sendto = res; killed = false }

-- What the documentation says: a check in every `cycle`-th interval, `n` intervals behind the last.
abbrev pub schedule : (cycle fd : ℕ) (n : ℕ) → ℕ → List Action
schedule cycle fd n zero = []
schedule cycle fd n (suc left) =
    if (n + 1) % cycle == 0
    then stun ∷ schedule cycle fd (n + 1) left
    else packet (pos fd) ∷ schedule cycle fd (n + 1) left

-- Rounds with one forwarding descriptor and these results of `sendto`.
abbrev pub quiet_rounds : ℕ → List ℕ → List Round
quiet_rounds fd [] = []
quiet_rounds fd (res ∷ results) = quiet (pos fd) (pos res) ∷ quiet_rounds fd results

-- Rounds in which no forwarder is up.
abbrev pub unforwarded_rounds : ℕ → List Round
unforwarded_rounds zero = []
unforwarded_rounds (suc n) = quiet (negsuc 0) (pos 0) ∷ unforwarded_rounds n

abbrev pub checks : ℕ → List Action
checks zero = []
checks (suc n) = stun ∷ checks n

module _ (cycle : ℕ) (some_cycle : 0 < cycle) (timeout : ℤ)
    (waits : is_nonpos timeout ≡ false) where
  loop-schedule :
      (fd n : ℕ) (results : List ℕ)
      → keep_alive_loop cycle (n % cycle) timeout (quiet_rounds fd results)
        ≡ record { actions = schedule cycle fd n (length results); status = running }
  unfolding keep_alive_loop
  loop-schedule fd n [] = refl
  loop-schedule fd n (res ∷ results) =
      let ih = loop-schedule fd (n + 1) results in
      elim (Bool-cases (leb cycle (n % cycle + 1))) [
        | inl top ↦
            let back = wrap cycle n some_cycle (ground arith) in
            ground (arith, top, back, ih, waits)
        | inr below ↦
            let next = along cycle n some_cycle (ground arith) in
            ground (arith, below, next, ih, waits)
      ]

  -- With a forwarder up and no kill and no failing packet, for a positive interval and count, the
  -- keeper goes on, checks the mapping in every `cycle`-th interval and sends one packet through
  -- the forwarder's descriptor in each other interval.
  pub unsk_keep_alive-schedule :
      (fd : ℕ) (results : List ℕ)
      → unsk_keep_alive cycle timeout (quiet_rounds fd results)
        ≡ record { actions = schedule cycle fd 0 (length results); status = running }
  unfolding unsk_keep_alive
  unsk_keep_alive-schedule fd results =
      let start : 0 ≡ 0 % cycle = sym (zero-mod cycle) in
      ap (λ n. keep_alive_loop cycle n timeout (quiet_rounds fd results)) start
      ∙ loop-schedule fd 0 results

  -- With no forwarder up, as in bind mode, and no kill, for a positive interval and count, the keeper
  -- goes on and checks the mapping in every interval, whatever the count says.
  pub unsk_keep_alive-unforwarded :
      (n : ℕ)
      → unsk_keep_alive cycle timeout (unforwarded_rounds n)
        ≡ record { actions = checks n; status = running }
  unfolding unsk_keep_alive keep_alive_loop
  unsk_keep_alive-unforwarded zero = refl
  unsk_keep_alive-unforwarded (suc n) = ground (arith, waits, unsk_keep_alive-unforwarded n)

-- A kill in a round ends the keeper with that round: it returns, after one action at most, whatever
-- the round met and whatever rounds would have come.
pub keep_alive_loop_killed :
    (cycle n : ℕ) (timeout : ℤ) (r : Round) (rounds : List Round)
    → r.killed ≡ true
    → let o = keep_alive_loop cycle n timeout (r ∷ rounds) in
      (o.status ≡ returned) × (length o.actions ≤ 1)
unfolding keep_alive_loop
keep_alive_loop_killed cycle n timeout r rounds h = ground arith
