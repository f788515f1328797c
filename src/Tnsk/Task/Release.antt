-- ===== src/Tnsk/Task/Release.antt =====
-- src/hev-tnsk.c: what a run of the keeper holds.
use natmap.Prelude.{ℕ, ◌≡◌, refl, ◌∙◌, List, [], ◌∷◌, Bool, true, false, Option, none, some, arith}
use natmap.Prelude.Int.{ℤ}
use natmap.Host.{Host, Trace, SockAddr, sent, stun_run, sock_stream}
use natmap.Host.Held.{Held, held}
use natmap.Conf.{Conf}
use natmap.Conf.Bport.{hev_conf_bport}
use natmap.Sock.{hev_sock_client_base}
use natmap.Sock.Acquire.{Acquires, socket_of, with_socket, hev_sock_client_base-Acquires}
use natmap.Keeper.{Keeper, text}
use natmap.Tnsk.{Answer, Status, running, returned, tnsk_keep_alive}
use natmap.Tnsk.Task.{Round, send_all, give_up, with_connection, tnsk_run}

-- A run ends holding what was held at first, or waits holding what it holds while it runs.
pub data Releases (before running now : Held) : Option (Bool × Keeper) → Type 0 where
  ended : (s : Keeper) → now ≡ before → Releases before running now (some (true, s))
  waiting : (s : Keeper) → now ≡ running → Releases before running now (some (false, s))

held-send_all :
    (fd : ℤ) (requests : List (List ℕ)) (t : Trace) → held (send_all fd requests t).1 ≡ held t
unfolding send_all
held-send_all fd [] t = refl
held-send_all fd (r ∷ requests) t = held-send_all fd requests (sent fd r ∷ t)

give_up-Releases :
    (fd : ℤ) (k : Conf) (status : Status) (s : Keeper) (before : Held) (t : Trace)
    → held t ≡ with_socket (some fd) before
    → let (end, t') = give_up fd k status t in
      Releases before (with_socket (some fd) before) (held t') (some (end, s))
unfolding give_up
give_up-Releases fd k running s before t h = waiting s h
give_up-Releases fd k returned s before t h = ended s (ground arith)

with_connection-Releases :
    (sock : Option (ℤ × SockAddr)) (k : Conf) (answers : List Answer) (before : Held) (t : Trace)
    → Acquires before (socket_of sock) (held t)
    → let (r, t') = with_connection sock k answers t in
      Releases before (with_socket (socket_of sock) before) (held t') r
unfolding with_connection
with_connection-Releases none k answers before t same = ended _ same
with_connection-Releases (some (fd, name)) k answers before t (open_fd, now) =
    let o = tnsk_keep_alive k.http k.keep answers in
    let t1 = (send_all fd o.requests (stun_run name ∷ t)).1 in
    give_up-Releases fd k o.status _ before t1
      (held-send_all fd o.requests (stun_run name ∷ t) ∙ now)

module _ (host : Host) where
  -- For every host and all that the connection answers: a run that does not trap on the choice of
  -- its port ends holding exactly what was held before it, whether there was no socket or the
  -- connection was given up; or it still holds the connection, and its socket besides, open and
  -- registered.
  pub tnsk_run-Releases :
      (x : Round) (s : Keeper) (k : Conf) (t : Trace)
      → hev_conf_bport x.rand s.port_next s.conf ≡ some k
      → let sock =
          (hev_sock_client_base host k.type sock_stream
            (text k.baddr)
            k.port
            k.http
            k.hport
            k.iface
            k.mark
            t).0.0 in
        let (r, t') = tnsk_run host x s t in
        Releases (held t) (with_socket (socket_of sock) (held t)) (held t') r
  unfolding tnsk_run
  tnsk_run-Releases x s k t called =
      let ((sock, peer), t1) =
        hev_sock_client_base host k.type sock_stream (text k.baddr) k.port k.http k.hport k.iface
          k.mark t in
      rw (called, tnsk_run)
        (with_connection-Releases sock k x.answers (held t) t1 (
          hev_sock_client_base-Acquires host t k.type sock_stream (text k.baddr) k.port k.http
            k.hport k.iface k.mark))
