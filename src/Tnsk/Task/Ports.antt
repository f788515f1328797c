-- ===== src/Tnsk/Task/Ports.antt =====
-- src/hev-tnsk.c: the ports that the keeper's task tries.
use natmap.Prelude.{
  ℕ, ◌+◌, ◌-◌, ◌≤◌, ◌<◌, ◌≡◌, refl, List, Bool, true, false, Option, none, some, length, get_elem?,
}
use natmap.Prelude.Int.{ℤ, pos}
use natmap.Host.{Host, Trace, SockAddr, sock_stream}
use natmap.Text.{print_unsigned}
use natmap.Conf.{Conf, hev_conf_init}
use natmap.Conf.Valid.{hev_conf_init-IsConf}
use natmap.Conf.Binding.{init-ordered, init-IsWalk}
use natmap.Conf.Bport.{hev_conf_bport}
use natmap.Sock.{hev_sock_client_base}
use natmap.Keeper.{Keeper, text}
use natmap.Keeper.Walk.{
  Attempt, is_none, TakesPort, WalksPorts, task_loop-WalksPorts, task_loop-get_elem?,
}
use natmap.Tnsk.{Answer}
use natmap.Tnsk.Task.{Round, with_connection, tnsk_run, task_entry}

with_connection-kept :
    (sock : Option (ℤ × SockAddr)) (k : Conf) (answers : List Answer) (t : Trace)
    → (ended : Bool) × ((with_connection sock k answers t).0
        ≡ some (ended, record { conf = k; port_next = is_none sock }))
unfolding with_connection
with_connection-kept none k answers t = (true, refl)
with_connection-kept (some (fd, name)) k answers t = (_, refl)

with_connection_failed :
    (sock : Option (ℤ × SockAddr)) (k : Conf) (answers : List Answer) (t : Trace)
    → sock ≡ none
    → (with_connection sock k answers t).0 ≡ some (true, record { conf = k; port_next = true })
unfolding with_connection
with_connection_failed sock k answers t e = rw (e, with_connection) refl

module _ (host : Host) where
  -- The socket that a run with this configuration has.
  abbrev pub attempt : Attempt
  attempt k t =
      (hev_sock_client_base host k.type sock_stream (text k.baddr) k.port k.http k.hport k.iface
        k.mark t).0.0

  tnsk_run-TakesPort : TakesPort attempt (λ (x : Round). x.rand) (tnsk_run host)
  unfolding tnsk_run
  tnsk_run-TakesPort x s t k called =
      let ((sock, peer), t1) =
        hev_sock_client_base host k.type sock_stream (text k.baddr) k.port k.http k.hport k.iface
          k.mark t in
      rw (called, tnsk_run) (with_connection-kept sock k x.answers t1)

  -- What has no socket fails.
  tnsk_run_failed :
      ((k : Conf) (t : Trace)
        → (hev_sock_client_base host k.type sock_stream
            (text k.baddr)
            k.port
            k.http
            k.hport
            k.iface
            k.mark
            t).0.0
          ≡ none)
      → (x : Round) (s : Keeper) (t : Trace) (k : Conf)
      → hev_conf_bport x.rand s.port_next s.conf ≡ some k
      → (tnsk_run host x s t).0 ≡ some (true, record { conf = k; port_next = true })
  unfolding tnsk_run
  tnsk_run_failed no_socket x s t k called =
      let ((sock, peer), t1) =
        hev_sock_client_base host k.type sock_stream (text k.baddr) k.port k.http k.hport k.iface
          k.mark t in
      rw (called, tnsk_run) (with_connection_failed sock k x.answers t1 (no_socket k t))

  module _ (inet_pton : ℕ → List ℕ → Bool) (c0 : ℕ) (opts : List (ℕ × List ℕ)) (k : Conf)
      (accepted : hev_conf_init inet_pton c0 opts ≡ some k) (lo hi : ℕ) (low : k.bport0 ≡ pos lo)
      (high : k.bport1 ≡ pos hi) (fits : hi < 65536) (in_order : k.brand ≡ false) where
    abbrev pub ordered : lo ≤ hi
    ordered = init-ordered k lo hi (hev_conf_init-IsConf inet_pton c0 opts k accepted) low high

    abbrev pub start : Keeper
    start = record { conf = k; port_next = false }

    -- For a configuration that `hev_conf_init` accepts, with a range of ports below 65536 that is not
    -- random, for every host and all that the connections answer: no round of the TCP keeper's task
    -- traps. Each round calls `hev_sock_client_base` with the first port plus the number of rounds
    -- before it in which this call gave no socket, modulo the size of the range; so the round behind
    -- one with a socket asks for the same port again, and the round behind one without for the next.
    -- There is a further round behind each round that ends, and none behind one that still waits.
    pub task_entry-WalksPorts :
        (rounds : List Round) (t : Trace)
        → (states : List Keeper) × ((task_entry host rounds start t).0 ≡ some states)
          × WalksPorts lo hi ordered fits attempt (tnsk_run host) 0 rounds start t states
    unfolding task_entry
    task_entry-WalksPorts rounds t =
        let v = hev_conf_init-IsConf inet_pton c0 opts k accepted in
        task_loop-WalksPorts lo hi ordered fits attempt (tnsk_run host) (λ x. x.rand)
          tnsk_run-TakesPort rounds 0 start t (init-IsWalk k lo hi v low high fits in_order)

    -- For a configuration that `hev_conf_init` accepts, with a range of ports below 65536 that is not
    -- random, on a host where no socket can be had: every port of the range is tried, the `i`-th
    -- behind the first one in round `i`, if the TCP keeper's task makes as many rounds.
    pub task_entry-get_elem? :
        (no_socket : (k : Conf) (t : Trace)
          → (hev_sock_client_base host k.type sock_stream
              (text k.baddr)
              k.port
              k.http
              k.hport
              k.iface
              k.mark
              t).0.0
            ≡ none)
        (rounds : List Round) (t : Trace) (p : ℕ)
        → lo ≤ p
        → p ≤ hi
        → p < lo + length rounds
        → (states : List Keeper) × ((task_entry host rounds start t).0 ≡ some states)
          × (s : Keeper) × (get_elem? states (p - lo) ≡ some s)
          × (s.conf.port ≡ print_unsigned p)
    unfolding task_entry
    task_entry-get_elem? no_socket rounds t p above below enough =
        let v = hev_conf_init-IsConf inet_pton c0 opts k accepted in
        task_loop-get_elem? lo hi ordered fits (λ x. x.rand) (tnsk_run host)
          (tnsk_run_failed no_socket) rounds start t p
          (init-IsWalk k lo hi v low high fits in_order) above below enough
