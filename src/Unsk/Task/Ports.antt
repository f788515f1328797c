-- ===== src/Unsk/Task/Ports.antt =====
-- src/hev-unsk.c: the ports that the keeper's task binds.
use natmap.Prelude.{ℕ, ◌≤◌, ◌<◌, ◌≡◌, refl, List, Bool, true, false, Option, none, some}
use natmap.Prelude.Int.{ℤ, pos}
use natmap.Host.{Host, Trace, SockAddr, sock_dgram}
use natmap.Conf.{Conf, hev_conf_init}
use natmap.Conf.Valid.{hev_conf_init-IsConf}
use natmap.Conf.Binding.{init-ordered, init-IsWalk}
use natmap.Sock.{hev_sock_client_base}
use natmap.Keeper.{Keeper, text}
use natmap.Keeper.Walk.{Attempt, is_none, TakesPort, WalksPorts, task_loop-WalksPorts}
use natmap.Unsk.{Round}
use natmap.Unsk.Task.{Run, with_name, unsk_run, task_entry}

with_name-kept :
    (sock : Option (ℤ × SockAddr)) (k : Conf) (rounds : List Round) (t : Trace)
    → (ended : Bool) × ((with_name sock k rounds t).0
        ≡ some (ended, record { conf = k; port_next = is_none sock }))
unfolding with_name
with_name-kept none k rounds t = (true, refl)
with_name-kept (some (fd, name)) k rounds t = (_, refl)

module _ (host : Host) where
  -- The socket that a run with this configuration has.
  abbrev pub attempt : Attempt
  attempt k t =
      (hev_sock_client_base host k.type sock_dgram (text k.baddr) k.port k.stun k.sport k.iface
        k.mark t).0.0

  unsk_run-TakesPort : TakesPort attempt (λ (x : Run). x.rand) (unsk_run host)
  unfolding unsk_run
  unsk_run-TakesPort x s t k called =
      let ((sock, peer), t1) =
        hev_sock_client_base host k.type sock_dgram (text k.baddr) k.port k.stun k.sport k.iface
          k.mark t in
      rw (called, unsk_run) (with_name-kept sock k x.rounds t1)

  module _ (inet_pton : ℕ → List ℕ → Bool) (c0 : ℕ) (opts : List (ℕ × List ℕ)) (k : Conf)
      (accepted : hev_conf_init inet_pton c0 opts ≡ some k) (lo hi : ℕ) (low : k.bport0 ≡ pos lo)
      (high : k.bport1 ≡ pos hi) (fits : hi < 65536) (in_order : k.brand ≡ false) where
    -- For a configuration that `hev_conf_init` accepts, with a range of ports below 65536 that is not
    -- random, for every host and all that the rounds meet: no run of the UDP keeper's task traps,
    -- and each calls `hev_sock_client_base` with the first port plus the number of runs before it in
    -- which this call gave no socket, modulo the size of the range.
    pub task_entry_ports :
        (runs : List Run) (t : Trace)
        → let s : Keeper = record { conf = k; port_next = false } in
          let order : lo ≤ hi =
            init-ordered k lo hi (hev_conf_init-IsConf inet_pton c0 opts k accepted) low high in
          (states : List Keeper) × ((task_entry host runs s t).0 ≡ some states)
          × WalksPorts lo hi order fits attempt (unsk_run host) 0 runs s t states
    unfolding task_entry
    task_entry_ports runs t =
        let v = hev_conf_init-IsConf inet_pton c0 opts k accepted in
        task_loop-WalksPorts lo hi (init-ordered k lo hi v low high) fits attempt (unsk_run host)
          (λ x. x.rand) unsk_run-TakesPort runs 0 (record { conf = k; port_next = false }) t
          (init-IsWalk k lo hi v low high fits in_order)
