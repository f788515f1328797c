-- ===== src/Life/Coherent.antt =====
-- The tasks together: what holds however they take turns.
use natmap.Prelude.{List, [], ◌∷◌, ◌++◌, ◌≡◌, refl, sym, ap, ◌∙◌, Bool, true, false, if◌then◌else◌}
use mathlib.Core.Path.{subst}
use natmap.Prelude.Int.{is_neg}
use natmap.Host.{SockAddr}
use natmap.Main.{Kind, tcp, udp}
use natmap.Forwarder
use natmap.Forwarder.{created, serving, hev_ufwd_run, hev_ufwd_kill, start, round, runs, kills}
use natmap.Forwarder.Single
use natmap.Forwarder.Single.{hev_tfwd_run-hev_ufwd_run, hev_tfwd_kill-hev_ufwd_kill, kill_servers}
use natmap.Life.{
  Client, fresh, asking, idle, away, holding, State, hev_stun_run, handle, give_up, unless_killed,
  check, fail, kill_on_failure, conclude, Step, prepares, fails_to_open, opens, checks, sends, sent,
  gives_up, sets_timeout, asks, fails_to_ask, gets_none, gets_mapping, stirs, starts, rounds, Reach,
  begin, next,
}
use natmap.Life.Clients.{
  nobody, one_asking, one_idle, single, fresh_named, asking_named, idle_named,
}
use natmap.Life.Runs.{
  run-IsCoherent, prepare-IsCoherent, open_with-IsCoherent, placed, IsCoherent, give_up-IsCoherent,
  elsewhere, killed_keeper, ran_kept, handled,
}

module _ (forwards : Bool) (mode : Kind) (IsName : SockAddr → Type 0) where
  fail-IsCoherent :
      (others : List Client) (s : State)
      → others ≡ []
      → IsCoherent forwards mode IsName s
      → IsCoherent forwards mode IsName (fail mode others s)
  unfolding fail
  fail-IsCoherent others s none h =
      rw (killed_keeper mode s, fail)
        (record {
          clients = nobody refl none;
          named = h.named;
          watched = λ u e k. cc;
          forwarder = h.forwarder;
          targeted = h.targeted;
        })

  unless_killed-IsCoherent :
      (k : Bool) (s : State)
      → mode ≡ udp
      → IsCoherent forwards mode IsName s
      → IsCoherent forwards mode IsName (unless_killed forwards k s)
  unfolding unless_killed
  unless_killed-IsCoherent true s u h =
      subst (λ (m : Kind). IsCoherent forwards mode IsName (give_up forwards m s)) u
        (give_up-IsCoherent forwards mode IsName s h)
  unless_killed-IsCoherent false s u h = h

  check-IsCoherent :
      (s : State)
      → mode ≡ udp
      → s.place ≡ holding
      → IsCoherent forwards mode IsName s
      → IsCoherent forwards mode IsName (check forwards s)
  unfolding check
  check-IsCoherent s u e h =
      unless_killed-IsCoherent s.killed (hev_stun_run s) u
        (run-IsCoherent forwards mode IsName s (h.named e) h.clients h.forwarder h.targeted)

  -- A task with a socket on a name of the keeper's.
  asks-IsCoherent :
      (a : SockAddr) (others : List Client) (s : State)
      → IsName a
      → others ≡ []
      → s.task ≡ true
      → IsCoherent forwards mode IsName s
      → IsCoherent forwards mode IsName (record s { clients = asking a ∷ others })
  asks-IsCoherent a others s name alone taken h = record {
    clients = one_asking a taken (ap (λ l. asking a ∷ l) alone) name;
    named = h.named;
    watched = h.watched;
    forwarder = h.forwarder;
    targeted = h.targeted;
  }

  -- The forwarder or the keeper's `killed` changes, and nothing else.
  forwarder-IsCoherent :
      (k : Bool) (f : Forwarder.State) (s : State)
      → (k ≡ false → s.killed ≡ false)
      → Forwarder.Reach f
      → (forwards ≡ false → f.servers ≡ [])
      → IsCoherent forwards mode IsName s
      → IsCoherent forwards mode IsName (record s { killed = k; forwarder = f })
  forwarder-IsCoherent k f s less r t h = record {
    clients =
        elsewhere forwards mode IsName s (record s { killed = k; forwarder = f }) h refl refl refl;
    named = h.named;
    watched = λ u e l. h.watched u e (less l);
    forwarder = r;
    targeted = t;
  }

  -- The handler.
  ran-IsCoherent :
      (b : Bool) (s : State)
      → forwards ≡ b
      → IsCoherent forwards mode IsName s
      → IsCoherent forwards mode IsName
          (if b then record s { forwarder = hev_ufwd_run s.forwarder } else s)
  ran-IsCoherent true s e h =
      forwarder-IsCoherent s.killed (hev_ufwd_run s.forwarder) s (λ l. l)
        (Forwarder.next h.forwarder runs) (λ e'. cc) h
  ran-IsCoherent false s e h = h

  handle-IsCoherent :
      (s : State)
      → IsCoherent forwards mode IsName s
      → IsCoherent forwards mode IsName (handle forwards mode s)
  handle-IsCoherent s h = rw (handled forwards mode s) (ran-IsCoherent forwards s refl h)

  handle_kept : (s : State) → (handle forwards mode s).task ≡ s.task
  handle_kept s = rw (handled forwards mode s) (ran_kept forwards s)

  conclude-IsCoherent :
      (m : Kind) (a : SockAddr) (others : List Client) (s : State)
      → m ≡ mode
      → IsName a
      → others ≡ []
      → s.task ≡ true
      → IsCoherent forwards mode IsName s
      → IsCoherent forwards mode IsName (conclude m a others s)
  conclude-IsCoherent tcp a others s same name alone taken h = record {
    clients = nobody refl alone;
    named = h.named;
    watched = λ u e k. cc;
    forwarder = h.forwarder;
    targeted = h.targeted;
  }
  conclude-IsCoherent udp a others s same name alone taken h = record {
    clients = one_idle a taken (ap (λ l. idle a ∷ l) alone) name (sym same);
    named = h.named;
    watched = h.watched;
    forwarder = h.forwarder;
    targeted = h.targeted;
  }

  -- The forwarder's turns.
  start-IsCoherent :
      (b : Bool) (f : Forwarder.State) (s : State)
      → Forwarder.Reach f
      → (forwards ≡ false → f.servers ≡ [])
      → IsCoherent forwards mode IsName s
      → IsCoherent forwards mode IsName (record (kill_on_failure mode b s) { forwarder = f })
  unfolding kill_on_failure
  start-IsCoherent true f s r t h =
      rw (killed_keeper mode s) (forwarder-IsCoherent true f s (λ l. cc) r t h)
  start-IsCoherent false f s r t h = forwarder-IsCoherent s.killed f s (λ l. l) r t h

  no_server :
      (x : Forwarder.Server) (before behind : List Forwarder.Server) (s : State)
      → s.forwarder.servers ≡ before ++ x ∷ behind
      → IsCoherent forwards mode IsName s
      → (f : Forwarder.State) → forwards ≡ false
      → f.servers ≡ []
  no_server x before behind s e h f missing =
      absurd (Single.not_among x before behind (sym (h.targeted missing) ∙ e))

  sending-IsCoherent :
      (b : Bool) (s : State)
      → IsCoherent forwards mode IsName s
      → IsCoherent forwards mode IsName (record s { sending = b })
  sending-IsCoherent b s h = record {
    clients = elsewhere forwards mode IsName s (record s { sending = b }) h refl refl refl;
    named = h.named;
    watched = h.watched;
    forwarder = h.forwarder;
    targeted = h.targeted;
  }

  step-IsCoherent :
      (s s' : State)
      → Step forwards mode IsName s s'
      → IsCoherent forwards mode IsName s
      → IsCoherent forwards mode IsName s'
  step-IsCoherent s _ (prepares e) h = prepare-IsCoherent forwards mode IsName mode s h
  step-IsCoherent s _ (fails_to_open e) h = placed forwards mode IsName away s h (λ p. cc)
  step-IsCoherent s _ (opens name new e) h =
      open_with-IsCoherent forwards mode IsName mode name s new h
  step-IsCoherent s _ (checks e u idles) h = check-IsCoherent s u e h
  step-IsCoherent s _ (sends e u idles open') h = sending-IsCoherent true s h
  step-IsCoherent s _ (sent there e lives) h = sending-IsCoherent false s h
  step-IsCoherent s _ (gives_up e leaves) h = give_up-IsCoherent forwards mode IsName s h
  step-IsCoherent s _ (sets_timeout e t) h = record {
    clients = elsewhere forwards mode IsName s (record s { killed = false }) h refl refl refl;
    named = h.named;
    watched = λ u e' l. cc;
    forwarder = h.forwarder;
    targeted = h.targeted;
  }
  step-IsCoherent s _ (asks before behind e) h =
      let (alone, taken, one) = single mode IsName fresh before behind s h.clients e in
      asks-IsCoherent s.saddr (before ++ behind) s (fresh_named mode IsName s h.clients one) alone
        taken h
  step-IsCoherent s _ (fails_to_ask before behind e) h =
      let (alone, taken, one) = single mode IsName fresh before behind s h.clients e in
      fail-IsCoherent (before ++ behind) s alone h
  step-IsCoherent s _ (gets_none a before behind e) h =
      let (alone, taken, one) = single mode IsName (asking a) before behind s h.clients e in
      fail-IsCoherent (before ++ behind) s alone h
  step-IsCoherent s _ (gets_mapping a before behind e) h =
      let (alone, taken, one) = single mode IsName (asking a) before behind s h.clients e in
      conclude-IsCoherent mode a (before ++ behind) (handle forwards mode s) refl
        (asking_named mode IsName s a h.clients one) alone (handle_kept s ∙ taken)
        (handle-IsCoherent s h)
  step-IsCoherent s _ (stirs a before behind e) h =
      let (alone, taken, one) = single mode IsName (idle a) before behind s h.clients e in
      asks-IsCoherent a (before ++ behind) s (idle_named mode IsName s a h.clients one) alone taken
        h
  step-IsCoherent s _ (starts before behind fd e) h =
      start-IsCoherent (is_neg fd) (start fd (before ++ behind) s.forwarder) s
        (Forwarder.next h.forwarder (Forwarder.starts before behind fd e))
        (no_server created before behind s e h (start fd (before ++ behind) s.forwarder)) h
  step-IsCoherent s _ (rounds before behind fd yields answer e) h =
      let f = round yields answer (before ++ behind) s.forwarder in
      forwarder-IsCoherent s.killed f s (λ l. l)
        (Forwarder.next h.forwarder (Forwarder.rounds before behind fd yields answer e))
        (no_server (serving fd) before behind s e h f) h

  -- The keeper, the STUN client and the forwarder, however their tasks take turns, with names for
  -- the keeper's sockets of which `IsName` holds: the STUN client's variable is set exactly while
  -- it has a task, it has one at most, and its socket is on one of these names; only in UDP mode
  -- does that task wait to be woken. A keeper that holds a mapping has a name; in UDP mode, unless it
  -- was killed, there is a STUN client's task. The forwarder is in a state that its own steps lead
  -- to, so it has one server at most; and none where no target is configured.
  pub Reach-IsCoherent :
      (old : SockAddr) (s : State)
      → Reach forwards mode IsName old s
      → IsCoherent forwards mode IsName s
  Reach-IsCoherent old _ begin = record {
    clients = nobody refl refl;
    named = λ e. cc;
    watched = λ u e l. cc;
    forwarder = Forwarder.begin;
    targeted = λ e. refl;
  }
  Reach-IsCoherent old s (next {s = s'} r step) =
      step-IsCoherent s' s step (Reach-IsCoherent old s' r)
