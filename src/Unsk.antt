-- ===== src/Unsk.antt =====
-- src/hev-unsk.c: `unsk_keep_alive`, which holds the UDP mapping open and lets it be checked.
pub mod Cycle
pub mod Task
mod Tests
use natmap.Prelude.{
  ℕ, zero, suc, ◌+◌, Bool, true, false, not, ◌||◌, List, [], ◌∷◌, leb, ◌==◌, if◌then◌else◌,
}
use natmap.Prelude.Int.{ℤ, pos, negsuc, is_neg, is_nonpos, eq_ℤ}

-- What one round of the loop meets: the result of the sleep (positive if the task was woken), the
-- descriptor that `hev_ufwd_fd` gives, the result of `sendto`, and whether `unsk_kill` set `timeout`
-- to 0 in the round.
pub record Round : Type 0 where
  pub slept : ℤ
  pub fd : ℤ
  pub sendto : ℤ
  pub killed : Bool

-- A run of the STUN client, or a packet through the descriptor.
pub data Action : Type 0 where
  stun : Action
  packet : ℤ → Action

pub data Status : Type 0 where
  running returned : Status

pub record Outcome : Type 0 where
  pub actions : List Action
  pub status : Status

abbrev act : Action → Outcome → Outcome
act a o = record o { actions = a ∷ o.actions }

abbrev stop : Outcome
stop = record { actions = []; status = returned }

-- `while (timeout)` behind a round that began with this value.
abbrev timeout_after : ℤ → Round → ℤ
timeout_after timeout r = if r.killed then pos 0 else timeout

module _ (cycle : ℕ) where
  -- The loop with `n`, over the rounds that come; it goes on where the list ends.
  pub keep_alive_loop : (n : ℕ) (timeout : ℤ) → List Round → Outcome
  keep_alive_loop n timeout [] = record { actions = []; status = running }
  keep_alive_loop n timeout (r ∷ rounds) =
      let timeout' = timeout_after timeout r in
      let over = eq_ℤ timeout' (pos 0) in
      let checked = keep_alive_loop 0 timeout' rounds in
      let counted = keep_alive_loop (n + 1) timeout' rounds in
      if not (is_nonpos r.slept)
      then stop
      else if is_neg r.fd || leb cycle (n + 1)
      then act stun (if over then stop else checked)
      else act (packet r.fd) (if is_neg r.sendto then stop else (if over then stop else counted))

  pub unsk_keep_alive : (timeout : ℤ) → List Round → Outcome
  unfolding keep_alive_loop
  unsk_keep_alive timeout rounds = keep_alive_loop 0 timeout rounds
