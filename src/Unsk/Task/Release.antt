-- ===== src/Unsk/Task/Release.antt =====
-- src/hev-unsk.c: what a run of the keeper holds.
use natmap.Prelude.{◌≡◌, refl, ◌∙◌, List, [], ◌∷◌, Option, none, some, arith}
use natmap.Prelude.Int.{ℤ}
use natmap.Host.{Host, Trace, SockAddr, sent, stun_run, unwatched, closed, sock_dgram}
use natmap.Host.Held.{Held, held}
use natmap.Conf.{Conf}
use natmap.Conf.Bport.{hev_conf_bport}
use natmap.Sock.{hev_sock_client_base}
use natmap.Sock.Acquire.{Acquires, socket_of, hev_sock_client_base-Acquires}
use natmap.Keeper.{Keeper, text}
use natmap.Unsk.{Round, Action, stun, packet, Status, running, returned, unsk_keep_alive}
use natmap.Unsk.Task.{Run, act_all, give_up, with_name, unsk_run}

held-act_all :
    (name : SockAddr) (actions : List Action) (t : Trace) → held (act_all name actions t).1 ≡ held t
unfolding act_all
held-act_all name [] t = refl
held-act_all name (stun ∷ actions) t = held-act_all name actions (stun_run name ∷ t)
held-act_all name (packet fd ∷ actions) t = held-act_all name actions (sent fd (b'k' ∷ []) ∷ t)

held-give_up : (k : Conf) (status : Status) (t : Trace) → held (give_up k status t).1 ≡ held t
unfolding give_up
held-give_up k running t = refl
held-give_up k returned t = ground arith

held-with_name :
    (sock : Option (ℤ × SockAddr)) (k : Conf) (rounds : List Round) (before : Held) (t : Trace)
    → Acquires before (socket_of sock) (held t)
    → held (with_name sock k rounds t).1 ≡ before
unfolding with_name
held-with_name none k rounds before t same = same
held-with_name (some (fd, name)) k rounds before t (open_fd, now) =
    let o = unsk_keep_alive k.ucount k.keep rounds in
    let dropped : held (closed fd ∷ unwatched fd ∷ t) ≡ before = ground arith in
    let t1 : Trace = stun_run name ∷ closed fd ∷ unwatched fd ∷ t in
    held-give_up k o.status (act_all name o.actions t1).1
    ∙ (held-act_all name o.actions t1 ∙ dropped)

module _ (host : Host) where
  -- For every host and all that the rounds meet: a run that does not trap on the choice of its port
  -- holds, when it ends and while it waits, exactly what was held before it.
  pub held-unsk_run :
      (x : Run) (s : Keeper) (k : Conf) (t : Trace)
      → hev_conf_bport x.rand s.port_next s.conf ≡ some k
      → held (unsk_run host x s t).1 ≡ held t
  unfolding unsk_run
  held-unsk_run x s k t called =
      let ((sock, peer), t1) =
        hev_sock_client_base host k.type sock_dgram (text k.baddr) k.port k.stun k.sport k.iface
          k.mark t in
      rw (called, unsk_run)
        (held-with_name sock k x.rounds (held t) t1 (
          hev_sock_client_base-Acquires host t k.type sock_dgram (text k.baddr) k.port k.stun
            k.sport k.iface k.mark))
