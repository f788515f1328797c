-- ===== src/Ufwd/Tests.antt =====
-- Runs of src/hev-ufwd.c.
use natmap.Prelude.{
  ℕ, ◌≡◌, refl, ap, true, false, List, [], ◌∷◌, Option, none, some, arith, if◌then◌else◌,
}
use natmap.Prelude.Int.{pos}
use natmap.Host.{Host, Trace, answered, got, recv_failed}
use natmap.Ufwd.{
  Session, Tree, leaf, node, memcmp, items, without, session_find, HevRbTree, IsRbTree, session_add,
  session_del,
}
use natmap.Ufwd.Sorted.{Sorted, is_equal}
use natmap.Ufwd.Map.{session_add-session_find, session_del-session_find}
use natmap.Ufwd.Client.{Turn, Reply, client_task_entry}
use natmap.Ufwd.Client.Replies.{Lives, lived, replies_of, client_task_entry-Lives}
use natmap.Ufwd.Server.{serve}
use natmap.Ufwd.Server.Serve.{Serves, serve-Serves}

-- A library that does not rotate, and erases by linking anew.
pub chain : List Session → Tree
chain [] = leaf
chain (s ∷ l) = node 0 leaf s (chain l)

items-chain : (l : List Session) → items (chain l) ≡ l
unfolding items chain
items-chain [] = refl
items-chain (s ∷ l) = ap (λ r. s ∷ r) (items-chain l)

abbrev pub plain : HevRbTree
plain = record {
  link_colour = 0;
  insert_color = λ t s. t;
  erase = λ t s. chain (without s.id (items t));
}

pub plain-IsRbTree : IsRbTree plain
plain-IsRbTree = record {
  insert_color_items = λ t s. refl;
  erase_items = λ t s. items-chain (without s.id (items t));
}

abbrev session : ℕ → ℕ → Session
session id byte = record { id = id; addr = 2 ∷ byte ∷ []; alen = 2; active = false; fd = pos id }

abbrev two : Tree
two = node 0 (node 0 leaf (session 8 9) leaf) (session 7 5) leaf

two-Sorted : Sorted 2 (items two)
unfolding items memcmp
two-Sorted = ((refl, tt), (tt, tt))

six_missing : session_find (2 ∷ 6 ∷ []) 2 two ≡ none
unfolding session_find memcmp
six_missing = refl

five_found : session_find (2 ∷ 5 ∷ []) 2 two ≡ some (session 7 5)
unfolding session_find memcmp
five_found = refl

nine_found : session_find (2 ∷ 9 ∷ []) 2 two ≡ some (session 8 9)
unfolding session_find memcmp
nine_found = refl

session_add-session_find_example :
    (t' : Tree) × (session_add plain (session 9 6) two ≡ some t')
    × Sorted 2 (items t')
    × (session_find (2 ∷ 9 ∷ []) 2 t' ≡ (
        if is_equal (memcmp (2 ∷ 6 ∷ []) (2 ∷ 9 ∷ []) 2)
        then some (session 9 6)
        else session_find (2 ∷ 9 ∷ []) 2 two))
session_add-session_find_example =
    session_add-session_find plain plain-IsRbTree (session 9 6) two (2 ∷ 9 ∷ []) two-Sorted
      six_missing

session_del-session_find_example :
    Sorted 2 (items (session_del plain (session 7 5) two))
    × (session_find (2 ∷ 5 ∷ []) 2 (session_del plain (session 7 5) two) ≡ none)
    × (session_find (2 ∷ 9 ∷ []) 2 (session_del plain (session 7 5) two) ≡ some (session 8 9))
session_del-session_find_example =
    session_del-session_find plain plain-IsRbTree (session 7 5) (session 8 9) two (2 ∷ 9 ∷ [])
      two-Sorted five_found (omega arith) nine_found

-- A host on which every call succeeds.
abbrev willing : Host
willing = record {
  getaddrinfo = λ t family type node service passive. answered 0 (
      some (record {
        id = 1;
        family = 2;
        socktype = 2;
        addr = record { family = 2; port = 0; addr0 = 0; addr1 = 0; addr2 = 0; addr3 = 0 };
      }));
  socket = λ t family type. pos 4;
  set_close_on_exec = λ t fd. pos 0;
  setsockopt = λ t fd opt. pos 0;
  bind = λ t fd addr. pos 0;
  connect = λ t fd addr. pos 0;
  listen = λ t fd n. pos 0;
  getsockname =
      λ t fd. (pos 0, record { family = 2; port = 0; addr0 = 0; addr1 = 0; addr2 = 0; addr3 = 0 });
  send = λ t fd bytes. pos 1;
  recv = λ t fd size. got [];
}

abbrev round : Option Tree × Trace
round = serve willing 2 [] [] [] plain (2 ∷ 6 ∷ []) 2 (1 ∷ []) (some 9) two []

serve-Serves_example :
    Serves willing 2 [] [] [] (2 ∷ 6 ∷ []) 2 (1 ∷ []) (some 9) two [] round.0 round.1
serve-Serves_example =
    serve-Serves willing 2 [] [] [] plain plain-IsRbTree (2 ∷ 6 ∷ []) 2 (1 ∷ []) two (some 9) []
      two-Sorted

-- A datagram that is passed on, a timeout of the active session, and one of the idle session.
abbrev answers : List Turn
answers =
    record { received = got (1 ∷ []); active = true; sfd = pos 4; sendto = pos 1 }
    ∷ record { received = recv_failed 1; active = true; sfd = pos 4; sendto = pos 0 }
    ∷ record { received = recv_failed 1; active = false; sfd = pos 4; sendto = pos 0 }
    ∷ []

abbrev life : (List Reply × Tree) × Trace
life = client_task_entry plain (session 7 5) answers two []

client_task_entry-Lives_example :
    (life.0.0 ≡ replies_of (session 7 5) (lived answers))
    × Lives (session 7 5) answers two [] life.0.1 life.1
client_task_entry-Lives_example =
    client_task_entry-Lives plain plain-IsRbTree (session 7 5) answers two [] two-Sorted five_found
