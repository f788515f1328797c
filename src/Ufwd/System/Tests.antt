-- ===== src/Ufwd/System/Tests.antt =====
-- src/hev-ufwd.c: the first datagram of a sender.
use natmap.Prelude.{ℕ, ◌≡◌, refl, true, List, [], ◌∷◌}
use natmap.Prelude.Int.{pos}
use natmap.Ufwd.{leaf, node, session_find, session_add}
use natmap.Ufwd.Tests.{plain, plain-IsRbTree}
use natmap.Ufwd.System.{
  connecting, sending, freed, State, initial, member, receive, connect, add, made, starts, receives,
  connects, Reach, begin, next,
}
use natmap.Ufwd.System.Safety.{IsSound, Reach-IsSound, session_free-freed}

abbrev sender : List ℕ
sender = 2 ∷ 6 ∷ []

abbrev asked : State
asked = record initial { phase = connecting sender }

abbrev added : State
added = record {
  tree = node 0 leaf (made plain 2 sender 9 (pos 4)) leaf;
  clients = 9 ∷ [];
  phase = sending 9;
}

asked-Reach : Reach plain 2 true asked
unfolding receive session_find
asked-Reach = next (next begin (starts refl)) (receives sender refl)

added-Reach : Reach plain 2 true added
unfolding connect add session_add member
added-Reach = next asked-Reach (connects sender 9 (pos 4) refl refl)

Reach-IsSound_example : IsSound true 2 added
Reach-IsSound_example = Reach-IsSound plain plain-IsRbTree 2 true added added-Reach

session_free-freed_example : (s' : State) × Reach plain 2 true s' × (s'.phase ≡ freed)
unfolding member
session_free-freed_example = session_free-freed plain plain-IsRbTree 2 9 added added-Reach refl refl
