-- ===== src/Tnsk.antt =====
-- src/hev-tnsk.c: `tnsk_keep_alive`, the requests that hold the TCP mapping open.
--
-- What the connection answers is a list, one entry for each call of `sendmsg` and `recv` in the
-- order in which the loops make them; the task goes on where the list ends. Each entry also says
-- whether `tnsk_kill` set `timeout` to 0 while the task waited in the call.
pub mod Rounds
pub mod Task
mod Tests
use natmap.Prelude.{
  ℕ, zero, suc, ◌+◌, Bool, true, false, not, ◌&&◌, List, [], ◌∷◌, ◌++◌, ◌==◌, if◌then◌else◌,
}
use natmap.Prelude.Int.{ℤ, pos, negsuc, is_nonpos, eq_ℤ}

pub record Answer : Type 0 where
  pub res : ℤ
  pub killed : Bool

pub data Status : Type 0 where
  running returned : Status

-- Where the task stands: before `sendmsg` or before `recv`.
pub data Phase : Type 0 where
  sending receiving : Phase

-- The messages that were handed to `sendmsg`, and what became of the task.
pub record Outcome : Type 0 where
  pub requests : List (List ℕ)
  pub status : Status

-- `iov[0]` and `iov[2]`
abbrev pub request_head : List ℕ
request_head =
    b'H' ∷ b'E' ∷ b'A' ∷ b'D' ∷ 32 ∷ b'/' ∷ 32 ∷ b'H' ∷ b'T' ∷ b'T' ∷ b'P' ∷ b'/' ∷ b'1' ∷ b'.'
    ∷ b'1' ∷ 13 ∷ 10 ∷ b'H' ∷ b'o' ∷ b's' ∷ b't' ∷ b':' ∷ 32 ∷ []

abbrev pub request_tail : List ℕ
request_tail =
    13 ∷ 10 ∷ b'C' ∷ b'o' ∷ b'n' ∷ b'n' ∷ b'e' ∷ b'c' ∷ b't' ∷ b'i' ∷ b'o' ∷ b'n' ∷ b':' ∷ 32 ∷ b'k'
    ∷ b'e' ∷ b'e' ∷ b'p' ∷ b'-' ∷ b'a' ∷ b'l' ∷ b'i' ∷ b'v' ∷ b'e' ∷ 13 ∷ 10 ∷ 13 ∷ 10 ∷ []

abbrev pub request : List ℕ → List ℕ
request http = request_head ++ (http ++ request_tail)

-- A wait that ran into its timeout, or was killed.
abbrev pub timed_out : ℤ
timed_out = negsuc 1

-- `timeout` behind a call that began with this value.
abbrev timeout_after : ℤ → Answer → ℤ
timeout_after timeout a = if a.killed then pos 0 else timeout

abbrev add_request : List ℕ → Outcome → Outcome
add_request r o = record o { requests = r ∷ o.requests }

module _ (http : List ℕ) (keep : ℤ) where
  pub keep_alive_loop : Phase → (misscnt : ℕ) → (timeout : ℤ) → List Answer → Outcome
  keep_alive_loop phase misscnt timeout [] = record { requests = []; status = running }
  keep_alive_loop sending misscnt timeout (a ∷ answers) =
      let rest = keep_alive_loop receiving misscnt keep answers in
      add_request (request http)
        (if is_nonpos a.res then record { requests = []; status = returned } else rest)
  keep_alive_loop receiving misscnt timeout (a ∷ answers) =
      let timeout' = timeout_after timeout a in
      let again = keep_alive_loop sending 1 timeout' answers in
      let more = keep_alive_loop receiving 0 timeout' answers in
      if eq_ℤ a.res timed_out && misscnt == 0 && not (eq_ℤ timeout' (pos 0))
      then again
      else if is_nonpos a.res
      then record { requests = []; status = returned }
      else more

  -- `timeout` is 30000 while the first request is sent.
  pub tnsk_keep_alive : List Answer → Outcome
  unfolding keep_alive_loop
  tnsk_keep_alive answers = keep_alive_loop sending 0 (pos 30000) answers
