-- ===== src/Tnsk/Task.antt =====
-- src/hev-tnsk.c: `tnsk_run` and `task_entry`, the task that connects, lets the STUN client run and
-- holds the connection, again and again.
pub mod Release
pub mod Ports
use natmap.Prelude.{ℕ, List, [], ◌∷◌, Bool, true, false, Option, none, some, if◌then◌else◌}
use natmap.Prelude.Int.{ℤ}
use natmap.Host.{
  Host, Io, SockAddr, sent, stun_run, forwarder_killed, sock_stream, return, ◌>>=◌, ◌>>◌, emit,
  close, del_fd,
}
use natmap.Conf.Getters.{
  hev_conf_type, hev_conf_keep, hev_conf_http, hev_conf_mark, hev_conf_baddr, hev_conf_taddr,
  hev_conf_iface, hev_conf_hport,
}
use natmap.Conf.{Conf}
use natmap.Conf.Bport.{hev_conf_bport}
use natmap.Sock.{hev_sock_client_base}
use natmap.Keeper.{Keeper, text, is_set, task_loop}
use natmap.Tnsk.{Answer, Status, running, returned, tnsk_keep_alive}

-- What one run meets: the value of `rand`, and what the connection answers.
pub record Round : Type 0 where
  pub rand : ℕ
  pub answers : List Answer

pub send_all : ℤ → List (List ℕ) → Io (Unit {0})
send_all fd [] = return tt
send_all fd (r ∷ requests) = do emit (sent fd r); send_all fd requests

-- Behind `tnsk_keep_alive`; false where it still holds the connection.
pub give_up : ℤ → Conf → Status → Io Bool
give_up fd k running = return false
give_up fd k returned = do
  if is_set (hev_conf_taddr k) then emit forwarder_killed else return tt
  del_fd fd
  close fd
  return true

-- From the socket and its name on, or from its failure.
pub with_connection : Option (ℤ × SockAddr) → Conf → List Answer → Io (Option (Bool × Keeper))
unfolding send_all give_up
with_connection none k answers = return (some (true, record { conf = k; port_next = true }))
with_connection (some (fd, name)) k answers = do
  emit (stun_run name)
  let o = tnsk_keep_alive (hev_conf_http k) (hev_conf_keep k) answers
  send_all fd o.requests
  ended ← give_up fd k o.status
  return (some (ended, record { conf = k; port_next = false }))

module _ (host : Host) where
  -- Null is the trap of `hev_conf_bport`.
  pub tnsk_run : Round → Keeper → Io (Option (Bool × Keeper))
  unfolding with_connection
  tnsk_run x s = elim (hev_conf_bport x.rand s.port_next s.conf) [
    | none ↦ return none
    | some k ↦ do
      (sock, peer) ←
          hev_sock_client_base host (hev_conf_type k) sock_stream (text (hev_conf_baddr k)) k.port
            (hev_conf_http k) (hev_conf_hport k) (hev_conf_iface k) (hev_conf_mark k)
      with_connection sock k x.answers
  ]

  -- The states that the rounds leave.
  pub task_entry : List Round → Keeper → Io (Option (List Keeper))
  unfolding tnsk_run
  task_entry rounds s = task_loop tnsk_run rounds s
