-- ===== src/Unsk/Task.antt =====
-- src/hev-unsk.c: `unsk_run` and `task_entry`, the task that finds the local address of the mapping,
-- lets the STUN client run on it and keeps the mapping alive, again and again.
pub mod Release
pub mod Ports
use natmap.Prelude.{ℕ, List, [], ◌∷◌, Bool, true, false, Option, none, some, if◌then◌else◌}
use natmap.Prelude.Int.{ℤ}
use natmap.Host.{
  Host, Io, SockAddr, sent, stun_run, forwarder_killed, sock_dgram, return, ◌>>=◌, ◌>>◌, emit,
  close, del_fd,
}
use natmap.Conf.Getters.{
  hev_conf_type, hev_conf_keep, hev_conf_ucount, hev_conf_stun, hev_conf_mark, hev_conf_baddr,
  hev_conf_taddr, hev_conf_iface, hev_conf_sport,
}
use natmap.Conf.{Conf}
use natmap.Conf.Bport.{hev_conf_bport}
use natmap.Sock.{hev_sock_client_base}
use natmap.Keeper.{Keeper, text, is_set, task_loop}
use natmap.Unsk.{Round, Action, stun, packet, Status, running, returned, unsk_keep_alive}

-- What one run meets: the value of `rand`, and the rounds of `unsk_keep_alive`.
pub record Run : Type 0 where
  pub rand : ℕ
  pub rounds : List Round

-- `hev_stun_run` on the local address, or "k" through the forwarder's socket.
pub act_all : SockAddr → List Action → Io (Unit {0})
act_all name [] = return tt
act_all name (stun ∷ actions) = do emit (stun_run name); act_all name actions
act_all name (packet fd ∷ actions) = do emit (sent fd (b'k' ∷ [])); act_all name actions

-- Behind `unsk_keep_alive`; false where it still waits.
pub give_up : Conf → Status → Io Bool
give_up k running = return false
give_up k returned = do
  if is_set (hev_conf_taddr k) then emit forwarder_killed else return tt
  return true

-- From the socket and its name on, or from its failure. The socket has served to find the name.
pub with_name : Option (ℤ × SockAddr) → Conf → List Round → Io (Option (Bool × Keeper))
unfolding act_all give_up
with_name none k rounds = return (some (true, record { conf = k; port_next = true }))
with_name (some (fd, name)) k rounds = do
  del_fd fd
  close fd
  emit (stun_run name)
  let o = unsk_keep_alive (hev_conf_ucount k) (hev_conf_keep k) rounds
  act_all name o.actions
  ended ← give_up k o.status
  return (some (ended, record { conf = k; port_next = false }))

module _ (host : Host) where
  -- Null is the trap of `hev_conf_bport`.
  pub unsk_run : Run → Keeper → Io (Option (Bool × Keeper))
  unfolding with_name
  unsk_run x s = elim (hev_conf_bport x.rand s.port_next s.conf) [
    | none ↦ return none
    | some k ↦ do
      (sock, peer) ←
          hev_sock_client_base host (hev_conf_type k) sock_dgram (text (hev_conf_baddr k)) k.port
            (hev_conf_stun k) (hev_conf_sport k) (hev_conf_iface k) (hev_conf_mark k)
      with_name sock k x.rounds
  ]

  -- The states that the runs leave.
  pub task_entry : List Run → Keeper → Io (Option (List Keeper))
  unfolding unsk_run
  task_entry runs s = task_loop unsk_run runs s
