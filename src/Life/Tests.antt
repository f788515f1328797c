-- ===== src/Life/Tests.antt =====
-- The tasks together: a run of the keeper whose STUN client asks, and gets a mapping.
use natmap.Prelude.{ℕ, [], ◌∷◌, ◌≡◌, refl, true, false}
use natmap.Prelude.Int.{pos}
use natmap.Host.{SockAddr}
use natmap.Main.{Kind, tcp, udp}
use natmap.Forwarder
use natmap.Forwarder.{serving, hev_ufwd_run, start}
use natmap.Life.{
  asking, idle, away, holding, State, hev_stun_run, open_with, handle, unsk_handler, prepares,
  opens, asks, gets_mapping, kill_on_failure, sends, starts, Reach, begin, next,
}
use natmap.Life.Runs.{IsCoherent}
use natmap.Life.Coherent.{Reach-IsCoherent}
use natmap.Life.Stale.{hev_stun_run-stale, stun_handler-orphan}

abbrev addr : (port : ℕ) → SockAddr
addr port = record { family = 2; port = port; addr0 = 1; addr1 = 0; addr2 = 0; addr3 = 0 }

abbrev IsAny : SockAddr → Type 0
IsAny a = Unit

abbrev asked : State
asked = record {
  place = holding;
  saddr = addr 7;
  killed = false;
  sending = false;
  task = true;
  clients = asking (addr 7) ∷ [];
  forwarder = Forwarder.initial;
}

asked-Reach : (mode : Kind) → Reach true mode IsAny (addr 0) asked
unfolding open_with hev_stun_run
asked-Reach tcp =
    next (next (next begin (prepares refl)) (opens (addr 7) tt refl)) (asks [] [] refl)
asked-Reach udp =
    next (next (next begin (prepares refl)) (opens (addr 7) tt refl)) (asks [] [] refl)

-- The forwarder serves, and a packet is sent through its socket.
abbrev in_sendto : State
in_sendto = record asked {
  sending = true;
  clients = idle (addr 7) ∷ [];
  forwarder = record { task = true; quit = false; sfd = pos 3; servers = serving (pos 3) ∷ [] };
}

in_sendto-Reach : Reach true udp IsAny (addr 0) in_sendto
unfolding handle unsk_handler hev_ufwd_run start kill_on_failure
in_sendto-Reach =
    next
      (next (next (asked-Reach udp) (gets_mapping (addr 7) [] [] refl)) (starts [] [] (pos 3) refl))
      (sends refl refl refl refl)

Reach-IsCoherent_example : IsCoherent true udp IsAny in_sendto
Reach-IsCoherent_example = Reach-IsCoherent true udp IsAny (addr 0) in_sendto in_sendto-Reach

hev_stun_run-stale_example :
    (s' : State) × Reach true udp IsAny (addr 0) s'
    × (s'.place ≡ holding)
    × (s'.saddr ≡ addr 8)
    × (s'.clients ≡ asking (addr 7) ∷ [])
hev_stun_run-stale_example =
    hev_stun_run-stale true IsAny (addr 0) (addr 7) (addr 8) in_sendto in_sendto-Reach refl refl
      refl tt

stun_handler-orphan_example :
    (s' : State) × Reach true tcp IsAny (addr 0) s'
    × (s'.place ≡ away)
    × (s'.forwarder.servers ≡ serving (pos 3) ∷ [])
    × (s'.forwarder.quit ≡ false)
stun_handler-orphan_example =
    stun_handler-orphan IsAny (addr 0) (addr 7) (pos 3) asked (asked-Reach tcp) refl refl refl refl
