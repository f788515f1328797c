-- ===== src/Unsk/Tests.antt =====
-- Runs of src/hev-unsk.c.
use natmap.Prelude.{ℕ, ◌≡◌, refl, true, List, [], ◌∷◌, arith}
use natmap.Prelude.Int.{pos}
use natmap.Unsk.{Round, stun, packet, running, unsk_keep_alive}
use natmap.Unsk.Cycle.{
  quiet, quiet_rounds, unforwarded_rounds, unsk_keep_alive-schedule, unsk_keep_alive-unforwarded,
}

abbrev results : List ℕ
results = 1 ∷ 1 ∷ 1 ∷ 1 ∷ []

unsk_keep_alive-schedule_example : unsk_keep_alive 3 (pos 10000) (quiet_rounds 5 results) ≡ record {
  actions = packet (pos 5) ∷ packet (pos 5) ∷ stun ∷ packet (pos 5) ∷ [];
  status = running;
}
unsk_keep_alive-schedule_example =
    unsk_keep_alive-schedule 3 (omega arith) (pos 10000) refl 5 results

unsk_keep_alive-unforwarded_example :
    unsk_keep_alive 3 (pos 10000) (unforwarded_rounds 2)
    ≡ record { actions = stun ∷ stun ∷ []; status = running }
unsk_keep_alive-unforwarded_example = unsk_keep_alive-unforwarded 3 (omega arith) (pos 10000) refl 2

abbrev kill : Round
kill = record (quiet (pos 5) (pos 1)) { killed = true }
