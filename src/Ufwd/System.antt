-- ===== src/Ufwd/System.antt =====
-- src/hev-ufwd.c: the server and the clients' tasks in turn, over the one tree of sessions.
--
-- A task gives way where it waits: the server for a datagram, while `session_new` makes a session,
-- and where `send` finds the socket's buffer full; a client's task for an answer.
pub mod Holds
pub mod Safety
mod Tests
use natmap.Prelude.{
  ℕ, List, [], ◌∷◌, Bool, true, false, ◌≡◌, ◌≢◌, ◌⊎◌, Option, none, some, ◌==◌, if◌then◌else◌,
}
use natmap.Prelude.Int.{ℤ}
use natmap.Ufwd.{
  Session, Tree, leaf, first, items, session_find, HevRbTree, session_add, session_del,
}
use natmap.Ufwd.Server.{activate}

-- Where the server is. In `endless` the search of `session_add` never ends; in `freed` memory that
-- was freed is written to.
pub data Phase : Type 0 where
  stopped waiting : Phase
  connecting : (saddr : List ℕ) → Phase
  sending : (id : ℕ) → Phase
  endless freed : Phase

-- The tree, the sessions that have a task, by their pointers, and the server.
pub record State : Type 0 where
  pub tree : Tree
  pub clients : List ℕ
  pub phase : Phase

abbrev pub initial : State
initial = record { tree = leaf; clients = []; phase = stopped }

-- Whether there is a session with this pointer, and which.
pub holds : ℕ → List Session → Bool
holds id [] = false
holds id (s ∷ l) = let rest = holds id l in if s.id == id then true else rest

pub session_of : ℕ → List Session → Option Session
session_of id [] = none
session_of id (s ∷ l) = let rest = session_of id l in if s.id == id then some s else rest

pub member : ℕ → List ℕ → Bool
member id [] = false
member id (x ∷ l) = let rest = member id l in if x == id then true else rest

pub remove : ℕ → List ℕ → List ℕ
remove id [] = []
remove id (x ∷ l) = let rest = remove id l in if x == id then rest else x ∷ rest

module _ (lib : HevRbTree) (alen : ℕ) where
  -- A datagram of `saddr`, with the session that `session_find` returned.
  pub receive : List ℕ → Option Session → State → State
  receive saddr none s = record s { phase = connecting saddr }
  receive saddr (some x) s = record s { phase = sending x.id }

  -- With what `session_add` returned; the session's task is made.
  pub add : ℕ → Option Tree → State → State
  add id none s = record s { phase = endless }
  add id (some t) s = record { tree = t; clients = id ∷ s.clients; phase = sending id }

  abbrev pub made : List ℕ → ℕ → ℤ → Session
  made saddr id fd = record {
    id = id;
    addr = first alen saddr;
    alen = alen;
    active = false;
    fd = fd;
  }

  -- With what `session_new` returned: a pointer and a socket, or null.
  pub connect : List ℕ → Option (ℕ × ℤ) → State → State
  unfolding add
  connect saddr none s = record s { phase = waiting }
  connect saddr (some (id, fd)) s = add id (session_add lib (made saddr id fd) s.tree) s

  -- Behind `send`: the session is marked as active.
  pub mark : ℕ → State → State
  mark id s =
      if holds id (items s.tree)
      then record s { tree = activate id s.tree; phase = waiting }
      else record s { phase = freed }

  -- `session_del` and `session_free`, with the session that the pointer is of.
  pub delete : ℕ → Option Session → State → State
  delete id none s = record s { phase = freed }
  delete id (some x) s = record s { tree = session_del lib x s.tree; clients = remove id s.clients }

  -- The turns of the tasks. `blocking` says whether `send` may give way.
  pub data Step (blocking : Bool) (s : State) : State → Type 0 where
    starts : s.phase ≡ stopped → Step blocking s (record s { phase = waiting })
    stops : s.phase ≡ waiting → Step blocking s (record s { phase = stopped })
    receives :
        (saddr : List ℕ)
        → s.phase ≡ waiting
        → Step blocking s (receive saddr (session_find saddr alen s.tree) s)
    -- the allocator returns no pointer that is in use
    connects :
        (saddr : List ℕ) (id : ℕ) (fd : ℤ)
        → s.phase ≡ connecting saddr
        → member id s.clients ≡ false
        → Step blocking s (connect saddr (some (id, fd)) s)
    fails : (saddr : List ℕ) → s.phase ≡ connecting saddr → Step blocking s (connect saddr none s)
    marks : (id : ℕ) → s.phase ≡ sending id → Step blocking s (mark id s)
    -- a client's task ends: its socket failed, nothing came in time, or its answer failed
    ends :
        (id : ℕ)
        → member id s.clients ≡ true
        → (blocking ≡ true) ⊎ (s.phase ≢ sending id)
        → Step blocking s (delete id (session_of id (items s.tree)) s)

  pub data Reach (blocking : Bool) : State → Type 0 where
    begin : Reach blocking initial
    next : {s s' : State} → Reach blocking s → Step blocking s s' → Reach blocking s'
