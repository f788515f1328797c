-- ===== src/Forwarder/Tests.antt =====
-- The forwarders: one that is started, gets its socket, and is killed.
use natmap.Prelude.{[], ◌∷◌, refl, true, false}
use natmap.Prelude.Int.{pos, minus_one}
use natmap.Forwarder.{
  created, serving, State, hev_ufwd_run, hev_ufwd_kill, start, round, finish, Reach, begin, next,
  runs, starts, rounds, Steps, stay, then,
}
use natmap.Forwarder.Single.{IsSingle, Reach-IsSingle}
use natmap.Forwarder.Kills.{Stops, hev_ufwd_kill-Stops}

abbrev made : State
made = record { task = true; quit = false; sfd = minus_one; servers = created ∷ [] }

abbrev there : State
there = record { task = true; quit = false; sfd = pos 3; servers = serving (pos 3) ∷ [] }

abbrev gone : State
gone = record { task = false; quit = true; sfd = minus_one; servers = [] }

made-Reach : Reach made
unfolding hev_ufwd_run
made-Reach = next begin runs

there-Reach : Reach there
unfolding start
there-Reach = next made-Reach (starts [] [] (pos 3) refl)

to_gone : Steps (hev_ufwd_kill there) gone
unfolding hev_ufwd_kill round finish
to_gone = then stay (rounds [] [] (pos 3) true (pos 1) refl)

Reach-IsSingle_example : IsSingle there
Reach-IsSingle_example = Reach-IsSingle there there-Reach

hev_ufwd_kill-Stops_example : Stops (pos 3) (hev_ufwd_kill there) gone
hev_ufwd_kill-Stops_example = hev_ufwd_kill-Stops there gone (pos 3) there-Reach refl to_gone
