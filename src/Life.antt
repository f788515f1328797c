-- ===== src/Life.antt =====
-- The keeper, the STUN client and the forwarder together: `tnsk_run` of src/hev-tnsk.c or `unsk_run`
-- of src/hev-unsk.c, `hev_stun_run` and `task_entry` of src/hev-stun.c, and the server of
-- src/hev-tfwd.c or src/hev-ufwd.c, as tasks that take turns.
--
-- A task gives way where it waits; between two waits it runs alone. Each step below is what a task
-- does in such a turn to the variables that the tasks share.
pub mod Clients
pub mod Runs
pub mod Coherent
pub mod Stale
mod Tests
use natmap.Prelude.{List, [], ◌∷◌, ◌++◌, Bool, true, false, ◌≡◌, ◌⊎◌, if◌then◌else◌}
use natmap.Prelude.Int.{ℤ, is_neg}
use natmap.Host.{SockAddr}
use natmap.Main.{Kind, tcp, udp}
use natmap.Forwarder
use natmap.Forwarder.{
  created, serving, hev_ufwd_run, hev_ufwd_kill, hev_ufwd_fd, hev_tfwd_run, hev_tfwd_kill, start,
  round,
}

-- A task of the STUN client: before its first turn; in `stun_bind` on a local address; or, in UDP
-- mode, until it is woken.
pub data Client : Type 0 where
  fresh : Client
  asking idle : SockAddr → Client

-- The keeper: before a run, while its socket is made, or holding the mapping.
pub data Place : Type 0 where
  away opening holding : Place

-- `saddr` is the keeper's, `task` the STUN client's static variable; `killed` is set where the
-- keeper's `timeout` is 0, `sending` while `unsk_keep_alive` is in `sendto`. `clients` are the STUN
-- client's tasks that have not ended.
pub record State : Type 0 where
  pub place : Place
  pub saddr : SockAddr
  pub killed : Bool
  pub sending : Bool
  pub task : Bool
  pub clients : List Client
  pub forwarder : Forwarder.State

-- A task that waits to be woken goes on to ask.
abbrev pub wake : Client → Client
wake fresh = fresh
wake (asking a) = asking a
wake (idle a) = asking a

abbrev pub wake_all : List Client → List Client
wake_all [] = []
wake_all (c ∷ l) = wake c ∷ wake_all l

pub hev_stun_run : State → State
hev_stun_run s =
    if s.task
    then record s { clients = wake_all s.clients }
    else record s { task = true; clients = fresh ∷ s.clients }

-- `timeout = 0`
pub tnsk_kill : State → State
tnsk_kill s = record s { killed = true }

pub unsk_kill : State → State
unsk_kill s = record s { killed = true }

-- The killer that `hev_tnsk_run` or `hev_unsk_run` set.
pub kill_keeper : Kind → State → State
unfolding tnsk_kill unsk_kill
kill_keeper tcp s = tnsk_kill s
kill_keeper udp s = unsk_kill s

abbrev pub kill_forwarder : Kind → Forwarder.State → Forwarder.State
kill_forwarder tcp f = hev_tfwd_kill f
kill_forwarder udp f = hev_ufwd_kill f

-- `unsk_run` sets `timeout` before it makes its socket.
abbrev pub prepare : Kind → State → State
prepare tcp s = record s { place = opening }
prepare udp s = record s { place = opening; killed = false; sending = false }

-- With the socket's name: `tnsk_keep_alive` sets `timeout` behind `hev_stun_run`.
pub open_with : Kind → SockAddr → State → State
unfolding hev_stun_run
open_with tcp name s = hev_stun_run (record s { place = holding; saddr = name; killed = false })
open_with udp name s = hev_stun_run (record s { place = holding; saddr = name })

-- A STUN client's task ends; it has a failure to tell of, or none.
pub fail : Kind → List Client → State → State
unfolding kill_keeper
fail mode others s = record (kill_keeper mode s) { task = false; clients = others }

abbrev pub conclude : Kind → SockAddr → List Client → State → State
conclude tcp a others s = record s { task = false; clients = others }
conclude udp a others s = record s { clients = idle a ∷ others }

-- The forwarder's first turn; its failure kills the keeper.
pub kill_on_failure : Kind → Bool → State → State
unfolding kill_keeper
kill_on_failure mode true s = kill_keeper mode s
kill_on_failure mode false s = s

abbrev pub start_forwarder : Kind → ℤ → List Forwarder.Server → State → State
start_forwarder mode fd others s = record (kill_on_failure mode (is_neg fd) s) {
  forwarder = start fd others s.forwarder;
}

-- How the loop of `tnsk_keep_alive` or of `unsk_keep_alive` ends: over TCP, a call of the connection
-- fails or waits in vain, at any time; over UDP, the keeper was killed, or `sendto` fails.
abbrev pub Leaves : Kind → State → Type 0
Leaves tcp s = Unit
Leaves udp s = (s.killed ≡ true) ⊎ (s.sending ≡ true)

-- `forwards` is whether there is a target, `hev_conf_taddr`.
module _ (forwards : Bool) where
  -- `stun_handler`
  pub tnsk_handler : State → State
  tnsk_handler s = if forwards then record s { forwarder = hev_tfwd_run s.forwarder } else s

  pub unsk_handler : State → State
  unsk_handler s = if forwards then record s { forwarder = hev_ufwd_run s.forwarder } else s

  pub handle : Kind → State → State
  unfolding tnsk_handler unsk_handler
  handle tcp s = tnsk_handler s
  handle udp s = unsk_handler s

  -- Behind `tnsk_keep_alive` or `unsk_keep_alive`.
  pub give_up : Kind → State → State
  give_up mode s =
      if forwards
      then record s { place = away; forwarder = kill_forwarder mode s.forwarder }
      else record s { place = away }

  -- `while (timeout)` of `unsk_keep_alive`
  pub unless_killed : Bool → State → State
  unless_killed true s = give_up udp s
  unless_killed false s = s

  -- A round that has the mapping checked.
  pub check : State → State
  unfolding hev_stun_run unless_killed
  check s = unless_killed s.killed (hev_stun_run s)

  -- `IsName` holds of the addresses that the keeper's sockets get.
  module _ (mode : Kind) (IsName : SockAddr → Type 0) where
    pub data Step (s : State) : State → Type 0 where
      prepares : s.place ≡ away → Step s (prepare mode s)
      fails_to_open : s.place ≡ opening → Step s (record s { place = away })
      opens : (name : SockAddr) → IsName name → s.place ≡ opening → Step s (open_with mode name s)
      checks : s.place ≡ holding → mode ≡ udp → s.sending ≡ false → Step s (check s)
      -- a packet through the forwarder's socket, in whose `sendto` the task may wait
      sends :
          s.place ≡ holding
          → mode ≡ udp
          → s.sending ≡ false
          → is_neg (hev_ufwd_fd s.forwarder) ≡ false
          → Step s (record s { sending = true })
      sent :
          s.place ≡ holding
          → s.sending ≡ true
          → s.killed ≡ false
          → Step s (record s { sending = false })
      gives_up : s.place ≡ holding → Leaves mode s → Step s (give_up mode s)
      -- `timeout` is set again behind `sendmsg`
      sets_timeout : s.place ≡ holding → mode ≡ tcp → Step s (record s { killed = false })
      -- the STUN client's first turn, with or without its socket on `saddr`
      asks :
          (before behind : List Client)
          → s.clients ≡ before ++ fresh ∷ behind
          → Step s (record s { clients = asking s.saddr ∷ (before ++ behind) })
      fails_to_ask :
          (before behind : List Client)
          → s.clients ≡ before ++ fresh ∷ behind
          → Step s (fail mode (before ++ behind) s)
      -- `stun_bind` gets no mapping, or it gets one and calls the handler
      gets_none :
          (a : SockAddr) (before behind : List Client)
          → s.clients ≡ before ++ asking a ∷ behind
          → Step s (fail mode (before ++ behind) s)
      gets_mapping :
          (a : SockAddr) (before behind : List Client)
          → s.clients ≡ before ++ asking a ∷ behind
          → Step s (conclude mode a (before ++ behind) (handle mode s))
      -- something arrives at the socket of a task that waits to be woken
      stirs :
          (a : SockAddr) (before behind : List Client)
          → s.clients ≡ before ++ idle a ∷ behind
          → Step s (record s { clients = asking a ∷ (before ++ behind) })
      starts :
          (before behind : List Forwarder.Server) (fd : ℤ)
          → s.forwarder.servers ≡ before ++ created ∷ behind
          → Step s (start_forwarder mode fd (before ++ behind) s)
      rounds :
          (before behind : List Forwarder.Server) (fd : ℤ) (yields : Bool) (answer : ℤ)
          → s.forwarder.servers ≡ before ++ serving fd ∷ behind
          → Step s (record s { forwarder = round yields answer (before ++ behind) s.forwarder })

    -- From the start of the program; `old` is what `saddr` held.
    pub data Reach (old : SockAddr) : State → Type 0 where
      begin : Reach old (record {
        place = away;
        saddr = old;
        killed = false;
        sending = false;
        task = false;
        clients = [];
        forwarder = Forwarder.initial;
      })
      next : {s s' : State} → Reach old s → Step s s' → Reach old s'
