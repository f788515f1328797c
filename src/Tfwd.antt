-- ===== src/Tfwd.antt =====
-- src/hev-tfwd.c: the TCP forwarder, a server task and a task for each connection.
pub mod Release
mod Tests
use natmap.Prelude.{ℕ, List, [], ◌∷◌, Bool, true, false, not, Option, none, some, if◌then◌else◌}
use natmap.Prelude.Int.{ℤ, pos, minus_one, is_neg}
use natmap.Host.{
  Host, Io, SockAddr, killed, accepted, handed, spliced, congestion, return, ◌>>=◌, ◌>>◌, emit,
  close, add_fd, del_fd, setsockopt,
}
use natmap.Conf.Getters.{
  hev_conf_mode, hev_conf_mark, hev_conf_taddr, hev_conf_tport, hev_conf_tmsec, hev_conf_ttcca,
  hev_conf_iface,
}
use natmap.Conf.{Conf}
use natmap.Sock.{hev_sock_client_pfwd, hev_sock_server_pfwd}
use natmap.Ufwd.Server.{target_port}
use natmap.Keeper.{text}

module _ (host : Host) where
  -- `hev_tcp_cca` on Linux. Its failure is logged.
  pub set_congestion : ℤ → Option (List ℕ) → Io (Unit {0})
  set_congestion sfd none = return tt
  set_congestion sfd (some tcca) = do res ← setsockopt host sfd (congestion tcca); return tt

  -- With the socket to the target, or its failure.
  pub forward : ℤ → Conf → ℤ → Io (Unit {0})
  unfolding set_congestion
  forward sfd k dfd = if is_neg dfd then close sfd else (do
    set_congestion sfd (hev_conf_ttcca k)
    add_fd sfd
    emit (spliced sfd dfd (hev_conf_tmsec k))
    del_fd sfd
    del_fd dfd
    close sfd
    close dfd)

  -- `hev_task_io_splice` returns when both directions are closed, or on the timeout.
  pub client_task_entry : ℤ → Conf → Io (Unit {0})
  unfolding forward
  client_task_entry sfd k = do
    dfd ← hev_sock_client_pfwd host (hev_conf_mode k) (text (hev_conf_taddr k)) (
        target_port host (hev_conf_mode k) (text (hev_conf_taddr k)) (text (hev_conf_tport k))
          k.mport)
    forward sfd k dfd

  -- The loop over what `accept` returns, -2 where the task is killed: each connection is handed to a
  -- task of its own. False where the list ends and the task waits.
  pub accept_loop : List ℤ → Io Bool
  accept_loop [] = return false
  accept_loop (nfd ∷ answers) = do
    emit (accepted nfd)
    let next = accept_loop answers
    if is_neg nfd then return true else (do emit (handed nfd); next)

  -- Behind the loop.
  pub stop : ℤ → Bool → Io Bool
  stop fd false = return false
  stop fd true = do close fd; return true

  -- With the listening socket, or its failure.
  pub serve : ℤ → List ℤ → Io Bool
  unfolding accept_loop stop
  serve fd answers =
      if is_neg fd
      then (do emit killed; return true)
      else (do ended ← accept_loop answers; stop fd ended)

  pub server_task_entry : SockAddr → Conf → List ℤ → Io Bool
  unfolding serve
  server_task_entry saddr k answers = do
    fd ← hev_sock_server_pfwd host saddr (hev_conf_mode k) (hev_conf_iface k) (hev_conf_mark k)
    serve fd answers
