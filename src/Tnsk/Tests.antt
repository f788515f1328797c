-- ===== src/Tnsk/Tests.antt =====
-- Runs of src/hev-tnsk.c.
use natmap.Prelude.{ℕ, ◌≡◌, refl, true, false, List, [], ◌∷◌}
use natmap.Prelude.Int.{pos}
use natmap.Tnsk.{Answer, request, timed_out, keep_alive_loop, tnsk_keep_alive}
use natmap.Tnsk.Rounds.{alive, rounds, is_kept, all_made, requests_for, tnsk_keep_alive-rounds}

abbrev host : List ℕ
host = b'a' ∷ []

-- The first round without data, then one with data, then one without.
abbrev given_up : List (List ℕ)
given_up = [] ∷ (4 ∷ []) ∷ [] ∷ []

tnsk_keep_alive-rounds_example :
    let o = tnsk_keep_alive host (pos 30000) (rounds given_up) in
    (alive o ≡ is_kept given_up) × (o.requests ≡ requests_for (request host) (all_made given_up))
tnsk_keep_alive-rounds_example = tnsk_keep_alive-rounds host (pos 30000) refl given_up

rounds_end : alive (tnsk_keep_alive host (pos 30000) (rounds given_up)) ≡ false
unfolding tnsk_keep_alive keep_alive_loop
rounds_end = refl

abbrev kill : Answer
kill = record { res = timed_out; killed = true }
