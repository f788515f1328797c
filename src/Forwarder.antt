-- ===== src/Forwarder.antt =====
-- src/hev-ufwd.c: the life of the forwarder's server, with the static variables, `hev_ufwd_run` and
-- `hev_ufwd_kill`, which other tasks call, and the server task, which gives way to other tasks where
-- it waits for a datagram. A task that was made gets its first turn later; only then it opens its
-- socket and resets `quit`. The server of src/hev-tfwd.c has the same steps; there `sfd` is a
-- variable of the task.
pub mod Single
pub mod Kills
mod Tests
use natmap.Prelude.{List, [], ◌∷◌, ◌++◌, ◌≡◌, Bool, true, false, ◌&&◌, ◌||◌, if◌then◌else◌}
use natmap.Prelude.Int.{ℤ, minus_one, is_neg}

-- A server task that was made: before its first turn, or in its loop.
pub data Server : Type 0 where
  created : Server
  serving : ℤ → Server

-- The static variables, and the server tasks that have not ended.
pub record State : Type 0 where
  pub task : Bool
  pub quit : Bool
  pub sfd : ℤ
  pub servers : List Server

abbrev pub initial : State
initial = record { task = false; quit = false; sfd = minus_one; servers = [] }

unfoldable pub hev_ufwd_run : State → State
hev_ufwd_run s = if s.task then s else record s { task = true; servers = created ∷ s.servers }

pub hev_ufwd_kill : State → State
hev_ufwd_kill s = record s { quit = true }

-- Of src/hev-tfwd.c.
pub hev_tfwd_run : State → State
hev_tfwd_run s = if s.task then s else record s { task = true; servers = created ∷ s.servers }

pub hev_tfwd_kill : State → State
hev_tfwd_kill s = record s { quit = true }

abbrev pub hev_ufwd_fd : State → ℤ
hev_ufwd_fd s = s.sfd

-- The server's first turn, with its socket or its failure; `others` are the servers besides it.
unfoldable pub start : ℤ → List Server → State → State
start fd others s =
    if is_neg fd
    then record s { task = false; sfd = fd; servers = others }
    else record s { quit = false; sfd = fd; servers = serving fd ∷ others }

-- Behind the loop.
pub finish : List Server → State → State
finish others s = record s { task = false; sfd = minus_one; servers = others }

-- A round of the loop: its call fails, or it gives way and `yielder` ends it with `quit`.
pub round : (yields : Bool) (answer : ℤ) → List Server → State → State
unfolding finish
round yields answer others s = if (yields && s.quit) || is_neg answer then finish others s else s

-- The tasks of the program run in turn.
pub data Step (s : State) : State → Type 0 where
  runs : Step s (hev_ufwd_run s)
  kills : Step s (hev_ufwd_kill s)
  starts :
      (before behind : List Server) (fd : ℤ)
      → s.servers ≡ before ++ created ∷ behind
      → Step s (start fd (before ++ behind) s)
  rounds :
      (before behind : List Server) (fd : ℤ) (yields : Bool) (answer : ℤ)
      → s.servers ≡ before ++ serving fd ∷ behind
      → Step s (round yields answer (before ++ behind) s)

pub data Reach : State → Type 0 where
  begin : Reach initial
  next : {s s' : State} → Reach s → Step s s' → Reach s'

-- Any number of turns.
pub data Steps (s : State) : State → Type 0 where
  stay : Steps s s
  then : {s' s'' : State} → Steps s s' → Step s' s'' → Steps s s''
