-- ===== src/Tfwd/Release.antt =====
-- src/hev-tfwd.c: what the tasks of the forwarder hold.
use natmap.Prelude.{
  ℕ, ◌≡◌, refl, sym, ◌∙◌, ap, List, [], ◌∷◌, Bool, true, false, Option, none, some, arith, inl, inr,
  Bool-cases, if◌then◌else◌,
}
use natmap.Prelude.Int.{ℤ, is_neg, eq_ℤ-refl}
use natmap.Host.{Host, Trace, SockAddr, killed, accepted, handed, closed}
use natmap.Host.Held.{Held, held, drop_fd}
use natmap.Conf.{Conf}
use natmap.Sock.{hev_sock_client_pfwd, hev_sock_server_pfwd}
use natmap.Sock.Handing.{handed_fds, handed_fds-hev_sock_server_pfwd}
use natmap.Sock.Acquire.{
  Acquires, descriptor, with_socket, hev_sock_client_pfwd-Acquires, hev_sock_server_pfwd-Acquires,
}
use natmap.Ufwd.Server.{target_port}
use natmap.Keeper.{text}
use natmap.Tfwd.{
  set_congestion, forward, client_task_entry, accept_loop, stop, serve, server_task_entry,
}

-- Without one descriptor.
abbrev pub without_fd : ℤ → Held → Held
without_fd fd h = record h { fds = drop_fd fd h.fds }

module _ (host : Host) where
  held-set_congestion :
      (sfd : ℤ) (tcca : Option (List ℕ)) (t : Trace)
      → held (set_congestion host sfd tcca t).1 ≡ held t
  unfolding set_congestion
  held-set_congestion sfd none t = refl
  held-set_congestion sfd (some tcca) t = refl

  held-forward :
      (sfd dfd : ℤ) (k : Conf) (before : Held) (t : Trace)
      → Acquires before (descriptor dfd) (held t)
      → held (forward host sfd k dfd t).1 ≡ without_fd sfd before
  unfolding forward
  held-forward sfd dfd k before t got = elim (Bool-cases (is_neg dfd)) [
    | inl failed ↦ rw (failed, forward) (ap (without_fd sfd) (rw failed at got))
    | inr opened ↦
        let now = held-set_congestion sfd k.ttcca t ∙ (rw opened at got).1 in
        rw (opened, forward) (rw now (ground (arith, eq_ℤ-refl sfd, eq_ℤ-refl dfd)))
  ]

  -- For every host: a client's task, begun with the descriptor of its connection, ends without it
  -- and with nothing else that was not held before, whether the target was reached or not.
  pub held-client_task_entry :
      (sfd : ℤ) (k : Conf) (t : Trace)
      → held (client_task_entry host sfd k t).1 ≡ without_fd sfd (held t)
  unfolding client_task_entry
  held-client_task_entry sfd k t =
      let port = target_port host k.mode (text k.taddr) (text k.tport) k.mport in
      let (dfd, t1) = hev_sock_client_pfwd host k.mode (text k.taddr) port t in
      held-forward sfd dfd k (held t) t1
        (hev_sock_client_pfwd-Acquires host t k.mode (text k.taddr) port)

-- The connections that a run of `accept` gives before it fails, and whether it fails.
abbrev pub connections : List ℤ → List ℤ
connections [] = []
connections (nfd ∷ answers) = if is_neg nfd then [] else nfd ∷ connections answers

abbrev pub is_over : List ℤ → Bool
is_over [] = false
is_over (nfd ∷ answers) = if is_neg nfd then true else is_over answers

-- One after the other in front of a list.
abbrev pub push_all : List ℤ → List ℤ → List ℤ
push_all [] l = l
push_all (x ∷ xs) l = push_all xs (x ∷ l)

module _ (host : Host) where
  accept_loop_lem :
      (answers : List ℤ) (t : Trace)
      → let (ended, t') = accept_loop host answers t in
        (held t' ≡ held t)
        × (handed_fds t' ≡ push_all (connections answers) (handed_fds t))
        × (ended ≡ is_over answers)
  unfolding accept_loop
  accept_loop_lem [] t = (refl, refl, refl)
  accept_loop_lem (nfd ∷ answers) t = elim (Bool-cases (is_neg nfd)) [
    | inl over ↦ rw (over, accept_loop) (ground arith)
    | inr more ↦
        let (kept, handed_all, ends) = accept_loop_lem answers (handed nfd ∷ accepted nfd ∷ t) in
        let same : held (handed nfd ∷ accepted nfd ∷ t) ≡ held t =
          ground (arith, more, eq_ℤ-refl nfd) in
        rw (more, accept_loop) (kept ∙ same, handed_all, ends)
  ]

  -- What a server's task leaves: it failed to listen, and the keeper is killed; or it has handed
  -- the connections to tasks and was stopped, with its socket closed and still registered; or it
  -- waits for the next connection.
  pub data Serves (saddr : SockAddr) (k : Conf) (answers : List ℤ) (t : Trace) (fd : ℤ)
      : Bool → Trace → Type 0 where
    refused :
        (rest : Trace)
        → is_neg fd ≡ true
        → held rest ≡ held t
        → Serves saddr k answers t fd true (killed ∷ rest)
    stopped :
        (t' : Trace)
        → is_over answers ≡ true
        → handed_fds t' ≡ push_all (connections answers) (handed_fds t)
        → held t' ≡ record (held t) { watches = fd ∷ (held t).watches }
        → Serves saddr k answers t fd true t'
    waiting :
        (t' : Trace)
        → is_over answers ≡ false
        → handed_fds t' ≡ push_all (connections answers) (handed_fds t)
        → held t' ≡ with_socket (some fd) (held t)
        → Serves saddr k answers t fd false t'

  stop-Serves :
      (saddr : SockAddr) (k : Conf) (answers : List ℤ) (t t1 : Trace) (fd : ℤ) (end : Bool)
      → end ≡ is_over answers
      → handed_fds t1 ≡ push_all (connections answers) (handed_fds t)
      → held t1 ≡ with_socket (some fd) (held t)
      → let (r, t') = stop host fd end t1 in Serves saddr k answers t fd r t'
  unfolding stop
  stop-Serves saddr k answers t t1 fd false over all now = waiting t1 (sym over) all now
  stop-Serves saddr k answers t t1 fd true over all now =
      stopped (closed fd ∷ t1) (sym over) all (rw now (ground (arith, eq_ℤ-refl fd)))

  -- For every host and whatever `accept` returns: where the socket to listen on could not be had,
  -- nothing more is held than before, and the keeper is killed last. Else each connection up to the
  -- first failure of `accept` is handed to a task of its own, in order; with the failure the task
  -- ends and closes its socket, but leaves it registered; without one it waits and holds it.
  pub server_task_entry-Serves :
      (saddr : SockAddr) (k : Conf) (answers : List ℤ) (t : Trace)
      → let fd = (hev_sock_server_pfwd host saddr k.mode k.iface k.mark t).0 in
        let (r, t') = server_task_entry host saddr k answers t in Serves saddr k answers t fd r t'
  unfolding server_task_entry serve
  server_task_entry-Serves saddr k answers t =
      let (fd, t1) = hev_sock_server_pfwd host saddr k.mode k.iface k.mark t in
      let got = hev_sock_server_pfwd-Acquires host t saddr k.mode k.iface k.mark in
      let quiet = handed_fds-hev_sock_server_pfwd host saddr k.mode k.iface k.mark t in
      elim (Bool-cases (is_neg fd)) [
        | inl failed ↦ rw (failed, server_task_entry, serve) (refused t1 failed (rw failed at got))
        | inr opened ↦
            let (kept, all, over) = accept_loop_lem answers t1 in
            rw (opened, server_task_entry, serve)
              (stop-Serves saddr k answers t (accept_loop host answers t1).1 fd
                (accept_loop host answers t1).0 over
                (all ∙ ap (push_all (connections answers)) quiet) (kept ∙ (rw opened at got).1))
      ]
